-- ===== src/Watch.antt =====
-- rsm/watch.py: `Event`, `Watcher` and `Feed`.
pub mod Resume
pub mod Ordered
use replicated_state_machine.Prelude.{
  ℕ, ◌+◌, Bool, true, false, not, ◌&&◌, ◌||◌, List, [], ◌∷◌, ◌++◌, ltb, leb, ◌==◌, if◌then◌else◌,
}
use replicated_state_machine.Errors.{Result, ok, err, config_error}
use replicated_state_machine.Machine.{Object}

-- The empty key is 0.
pub record Event : Type 0 where
  pub index : ℕ
  pub key : ℕ
  pub value : Object

-- `Event(...)` with its `__post_init__`
unfoldable pub new_event : ℕ → ℕ → Object → Result Event
new_event index key value =
    if ltb index 1
    then err config_error
    else if key == 0
    then err config_error
    else ok (record { index = index; key = key; value = value })

pub record Watcher : Type 0 where
  pub name : ℕ
  pub key : ℕ
  pub seen : List Event
  pub at : ℕ
  pub connected : Bool
  pub missed : ℕ

-- `Watcher(name, key)`
abbrev pub new_watcher : ℕ → ℕ → Watcher
new_watcher name key = record {
  name = name;
  key = key;
  seen = [];
  at = 0;
  connected = true;
  missed = 0;
}

unfoldable pub wants : Watcher → Event → Bool
wants w e = (w.key == 0) || (e.key == w.key)

unfoldable pub deliver : Watcher → Event → Watcher × Bool
deliver w e =
    if not w.connected || not (wants w e)
    then (w, false)
    else if leb e.index w.at
    then (w, false)
    else (record w { seen = w.seen ++ e ∷ []; at = e.index }, true)

-- Each event is above the one before it.
abbrev pub rising : List Event → Bool
rising [] = true
rising (e ∷ []) = true
rising (e ∷ f ∷ es) = ltb e.index f.index && rising (f ∷ es)

unfoldable pub ordered : Watcher → Bool
ordered w = rising w.seen

pub record Feed : Type 0 where
  pub watchers : List Watcher
  pub events : List Event
  pub delivered : ℕ

abbrev pub no_feed : Feed
no_feed = record { watchers = []; events = []; delivered = 0 }

abbrev pub has_name : ℕ → List Watcher → Bool
has_name name [] = false
has_name name (w ∷ ws) = (w.name == name) || has_name name ws

unfoldable pub add : Feed → Watcher → Result Feed
add f w =
    if has_name w.name f.watchers
    then err config_error
    else ok (record f { watchers = f.watchers ++ w ∷ [] })

-- the loop of `publish`: the watchers after it, and how many took the event
abbrev pub offer : Event → List Watcher → List Watcher × ℕ
offer e [] = ([], 0)
offer e (w ∷ ws) =
    let (w', took) = deliver w e in
    let (ws', taken) = offer e ws in (w' ∷ ws', if took then taken + 1 else taken)

unfoldable pub publish : Feed → Event → Feed × ℕ
publish f e =
    let (after, taken) = offer e f.watchers in
    (
      record { watchers = after; events = f.events ++ e ∷ []; delivered = f.delivered + taken },
      taken,
    )

abbrev pub later : ℕ → List Event → List Event
later index [] = []
later index (e ∷ es) = let rest = later index es in if ltb index e.index then e ∷ rest else rest

-- `since(index)`; a negative index, which it refuses, is not a number here
unfoldable pub since : Feed → ℕ → List Event
since f index = later index f.events
