-- ===== src/Watch/Resume.antt =====
-- A watcher that comes back (rsm/watch.py).
use replicated_state_machine.Prelude.{
  ℕ, ◌≤◌, ◌≡◌, refl, sym, ap, ◌∙◌, Bool-cases, inl, inr, List, [], ◌∷◌, ◌++◌, ltb, arith, All,
}
use replicated_state_machine.Watch.{Event, Watcher, Feed, wants, deliver, later, since}

-- Events handed over one after the other.
unfoldable pub receive : Watcher → List Event → Watcher
receive w [] = w
receive w (e ∷ es) = receive (deliver w e).0 es

-- A watcher that would not take the event.
abbrev Refuses : Watcher → Event → Type 0
Refuses w e = (deliver w e).0 ≡ w

receive-append :
    (w : Watcher) (es fs : List Event) → receive w (es ++ fs) ≡ receive (receive w es) fs
unfolding receive
receive-append w [] fs = refl
receive-append w (e ∷ es) fs = receive-append (deliver w e).0 es fs

deliver-twice : (w : Watcher) (e : Event) → Refuses (deliver w e).0 e
unfolding deliver wants
deliver-twice w e = ground arith

-- What was refused once is refused after any other delivery.
deliver-Refuses : (w : Watcher) (e f : Event) → Refuses w e → Refuses (deliver w f).0 e
unfolding deliver wants
deliver-Refuses w e f h = ground arith

receive-Refuses :
    (w : Watcher) (e : Event) (es : List Event) → Refuses w e → Refuses (receive w es) e
unfolding receive
receive-Refuses w e [] h = h
receive-Refuses w e (f ∷ es) h = receive-Refuses (deliver w f).0 e es (deliver-Refuses w e f h)

received-Refuses : (w : Watcher) (es : List Event) → All (Refuses (receive w es)) es
unfolding receive
received-Refuses w [] = tt
received-Refuses w (e ∷ es) =
    (receive-Refuses (deliver w e).0 e es (deliver-twice w e), received-Refuses (deliver w e).0 es)

receive_refused : (w : Watcher) (es : List Event) → All (Refuses w) es → receive w es ≡ w
unfolding receive
receive_refused w [] h = refl
receive_refused w (e ∷ es) h = rw h.0 (receive_refused w es h.1)

at-deliver : (w : Watcher) (e : Event) → w.at ≤ (deliver w e).0.at
unfolding deliver
at-deliver w e = ground arith

old-Refuses : (w : Watcher) (e : Event) → e.index ≤ w.at → Refuses w e
unfolding deliver
old-Refuses w e h = ground arith

-- Events up to where the watcher stands make no difference.
receive-later :
    (a : ℕ) (w : Watcher) (es : List Event) → a ≤ w.at → receive w (later a es) ≡ receive w es
unfolding receive
receive-later a w [] h = refl
receive-later a w (e ∷ es) h = elim (Bool-cases (ltb a e.index)) [
  | inl q ↦ rw q (receive-later a (deliver w e).0 es (omega (arith, at-deliver w e)))
  | inr q ↦ rw (q, old-Refuses w e (ground (arith, q))) (receive-later a w es h)
]

-- A watcher that took the first events of a feed, went away, and takes what `since` answers for
-- where it stood, ends as if it had been offered every event as it came: no event is missed and
-- none is taken twice.
pub resume_misses_nothing :
    (w : Watcher) (f : Feed) (before away : List Event)
    → f.events ≡ before ++ away
    → receive (receive w before) (since f (receive w before).at) ≡ receive w f.events
unfolding since
resume_misses_nothing w f before away all =
    let w₁ = receive w before in
    receive-later w₁.at w₁ f.events (omega arith)
    ∙ rw all (
        receive-append w₁ before away
        ∙ ap (λ x. receive x away) (receive_refused w₁ before (received-Refuses w before))
        ∙ sym (receive-append w before away))
