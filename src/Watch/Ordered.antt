-- ===== src/Watch/Ordered.antt =====
-- What watchers have seen is in the order of the log (rsm/watch.py).
use replicated_state_machine.Prelude.{
  ℕ, ◌≤◌, ◌<◌, ◌≡◌, refl, subst, true, false, not, ◌||◌, Bool-cases, inl, inr, List, [], ◌∷◌, ◌++◌,
  leb, All, All-append, In, All-In, arith,
}
use replicated_state_machine.Errors.{ok}
use replicated_state_machine.Watch.{
  Event, Watcher, new_watcher, Feed, no_feed, wants, deliver, rising, ordered, add, offer, publish,
}

-- Events up to an index.
abbrev UpTo : ℕ → List Event → Type 0
UpTo k = All (λ e. e.index ≤ k)

-- What was seen rises, up to where the watcher stands.
record InOrder (w : Watcher) : Type 0 where
  rises : rising w.seen ≡ true
  reached : UpTo w.at w.seen

UpTo-weaken : (k n : ℕ) (es : List Event) → k ≤ n → UpTo k es → UpTo n es
UpTo-weaken k n [] h u = tt
UpTo-weaken k n (e ∷ es) h u = (omega (arith, u.0), UpTo-weaken k n es h u.1)

rising-snoc :
    (k : ℕ) (es : List Event) (e : Event)
    → rising es ≡ true
    → UpTo k es
    → k < e.index
    → rising (es ++ e ∷ []) ≡ true
rising-snoc k [] e r u h = refl
rising-snoc k (d ∷ []) e r u h = ground (arith, u.0)
rising-snoc k (d ∷ c ∷ es) e r u h =
    let rest = rising-snoc k (c ∷ es) e (ground arith) u.1 h in ground (arith, rest)

take-InOrder :
    (w : Watcher) (e : Event)
    → InOrder w
    → leb e.index w.at ≡ false
    → InOrder (record w { seen = w.seen ++ e ∷ []; at = e.index })
take-InOrder w e h new = record {
  rises = rising-snoc w.at w.seen e h.rises h.reached (ground arith);
  reached =
      All-append (λ d. d.index ≤ e.index) w.seen (e ∷ [])
        (UpTo-weaken w.at e.index w.seen (ground arith) h.reached) (omega arith, tt);
}

deliver-InOrder : (w : Watcher) (e : Event) → InOrder w → InOrder (deliver w e).0
unfolding deliver
deliver-InOrder w e h = elim (Bool-cases (not w.connected || not (wants w e))) [
  | inl q ↦ rw q h
  | inr q ↦ elim (Bool-cases (leb e.index w.at)) [
    | inl old ↦ rw (q, old) h
    | inr new ↦ rw (q, new) (take-InOrder w e h new)
  ]
]

offer-InOrder : (e : Event) (ws : List Watcher) → All InOrder ws → All InOrder (offer e ws).0
offer-InOrder e [] h = tt
offer-InOrder e (w ∷ ws) h = (deliver-InOrder w e h.0, offer-InOrder e ws h.1)

-- The feeds that `add`, of watchers that have seen nothing, and `publish` make.
pub data Fed : Feed → Type 0 where
  started : Fed no_feed
  joined : {f f' : Feed} (name key : ℕ) → Fed f → add f (new_watcher name key) ≡ ok f' → Fed f'
  published : {f : Feed} (e : Event) → Fed f → Fed (publish f e).0

Fed-InOrder : {f : Feed} → Fed f → All InOrder f.watchers
unfolding add publish
Fed-InOrder started = tt
Fed-InOrder (joined {f} {f'} name key h q) =
    let same : record f { watchers = f.watchers ++ new_watcher name key ∷ [] } ≡ f' =
      ground arith in
    subst (λ g. All InOrder g.watchers) same
      (All-append InOrder f.watchers (new_watcher name key ∷ []) (Fed-InOrder h)
        (record { rises = refl; reached = tt }, tt))
Fed-InOrder (published {f} e h) = offer-InOrder e f.watchers (Fed-InOrder h)

-- Whatever is published, in whatever order, each watcher of a feed has seen events in rising order
-- of their indices, so none twice.
pub Fed-ordered : {f : Feed} (w : Watcher) → Fed f → In w f.watchers → ordered w ≡ true
unfolding ordered
Fed-ordered {f} w h i = (All-In InOrder f.watchers (Fed-InOrder h) i).rises
