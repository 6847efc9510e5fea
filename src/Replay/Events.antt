-- ===== src/Replay/Events.antt =====
-- bench/replay.py: the queue of events, and the turns that are due.
use agentserve.Common.{
  ℕ, zero, suc, ◌+◌, ◌≤◌, ◌≡◌, refl, arith, inl, inr, Option, none, some, List, [], ◌∷◌, ◌++◌, All,
  get_elem?, length, sum_by, drop, Bool-cases, subst,
}
use agentserve.Models.{SessionTrace, Turn}
use agentserve.Replay.{Event, earlier, pop_least, arrivals_from}

-- Two events in the order that a comparison gives, whatever it is: what they add up to and what holds
-- of both are the same.
module _ (f : Event → ℕ) where
  pub sum_by-pop_least :
      (e : Event) (events : List Event)
      → f (pop_least e events).0 + sum_by f (pop_least e events).1 ≡ f e + sum_by f events
  unfolding pop_least
  sum_by-pop_least e [] = refl
  sum_by-pop_least e (d ∷ events) = elim (Bool-cases (earlier d e)) [
    | inl before ↦ rw before (omega (arith, sum_by-pop_least d events))
    | inr after ↦ rw after (omega (arith, sum_by-pop_least e events))
  ]

module _ {κ} (P : Event → Type κ) where
  pub All-pop_least :
      (e : Event) (events : List Event)
      → P e
      → All P events
      → P (pop_least e events).0 × All P (pop_least e events).1
  unfolding pop_least
  All-pop_least e [] p ps = (p, tt)
  All-pop_least e (d ∷ events) p ps = elim (Bool-cases (earlier d e)) [
    | inl before ↦ let (q, rest) = All-pop_least d events ps.0 ps.1 in rw before (q, (p, rest))
    | inr after ↦ let (q, rest) = All-pop_least e events p ps.1 in rw after (q, (ps.0, rest))
  ]

-- Events that are not due before a time.
unfoldable pub AllFrom : ℕ → List Event → Type 0
AllFrom t [] = Unit
AllFrom t (e ∷ events) = (t ≤ e.at_ms) × AllFrom t events

pub AllFrom-nil : (t : ℕ) → AllFrom t []
unfolding AllFrom
AllFrom-nil t = tt

pub AllFrom-cons :
    (t : ℕ) (e : Event) (events : List Event)
    → t ≤ e.at_ms
    → AllFrom t events
    → AllFrom t (e ∷ events)
unfolding AllFrom
AllFrom-cons t e events h hs = (h, hs)

pub AllFrom-append :
    (t : ℕ) (ds es : List Event) → AllFrom t ds → AllFrom t es → AllFrom t (ds ++ es)
unfolding AllFrom
AllFrom-append t [] es h k = k
AllFrom-append t (d ∷ ds) es h k = (h.0, AllFrom-append t ds es h.1 k)

pub AllFrom-All : (t : ℕ) (events : List Event) → AllFrom t events → All (λ e. t ≤ e.at_ms) events
unfolding AllFrom
AllFrom-All t [] h = tt
AllFrom-All t (e ∷ events) h = (h.0, AllFrom-All t events h.1)

pub All-AllFrom : (t : ℕ) (events : List Event) → All (λ e. t ≤ e.at_ms) events → AllFrom t events
unfolding AllFrom
All-AllFrom t [] h = tt
All-AllFrom t (e ∷ events) h = (h.0, All-AllFrom t events h.1)

pub AllFrom-zero : (events : List Event) → AllFrom 0 events
unfolding AllFrom
AllFrom-zero [] = tt
AllFrom-zero (e ∷ events) = (omega arith, AllFrom-zero events)

-- The event that is popped is due no later than any other.
pub pop_least-le :
    (e : Event) (events : List Event)
    → ((pop_least e events).0.at_ms ≤ e.at_ms)
      × AllFrom (pop_least e events).0.at_ms (pop_least e events).1
unfolding pop_least
pop_least-le e [] = (omega arith, unfold AllFrom in tt)
pop_least-le e (d ∷ events) = elim (Bool-cases (earlier d e)) [
  | inl before ↦
      let (first, rest) = pop_least-le d events in
      let ordered : d.at_ms ≤ e.at_ms = unfold earlier in ground (arith, before) in
      rw before (omega arith, AllFrom-cons _ e _ (omega arith) rest)
  | inr after ↦
      let (first, rest) = pop_least-le e events in
      let ordered : e.at_ms ≤ d.at_ms = unfold earlier in ground (arith, after) in
      rw after (omega arith, AllFrom-cons _ d _ (omega arith) rest)
]

-- An event that names a turn of a session.
abbrev pub IsDue : List SessionTrace → Event → Type 0
IsDue traces e =
    (trace : SessionTrace) × (turn : Turn) × (get_elem? traces e.session ≡ some trace)
    × (get_elem? trace.turns e.turn ≡ some turn)

-- What the turns of a session from one on add up to.
abbrev pub load_of : (Turn → ℕ) → Option SessionTrace → ℕ → ℕ
load_of f none t = 0
load_of f (some trace) t = sum_by f (drop t trace.turns)

-- What the turns add up to that an event leads to.
abbrev pub load : (Turn → ℕ) → List SessionTrace → Event → ℕ
load f traces e = load_of f (get_elem? traces e.session) e.turn

pub sum_by-drop {ℓ} :
    {A : Type ℓ} (f : A → ℕ) (xs : List A) (i : ℕ) (x : A)
    → get_elem? xs i ≡ some x
    → sum_by f (drop i xs) ≡ f x + sum_by f (drop (suc i) xs)
sum_by-drop f [] i x e = absurd (cc e)
sum_by-drop f (y ∷ xs) zero x e = ground (arith, e)
sum_by-drop f (y ∷ xs) (suc i) x e = sum_by-drop f xs i x e

-- The traces from a number on.
abbrev pub IsRest : List SessionTrace → ℕ → List SessionTrace → Type 0
IsRest traces i rest = (j : ℕ) → get_elem? traces (i + j) ≡ get_elem? rest j

module _ (traces : List SessionTrace) (i : ℕ) (trace : SessionTrace) (rest : List SessionTrace)
    (same : IsRest traces i (trace ∷ rest)) where
  IsRest-first : get_elem? traces i ≡ some trace
  IsRest-first =
      subst (λ (n : ℕ). get_elem? traces n ≡ some trace) (let e : i + 0 ≡ i = omega arith in e)
        (same 0)

  IsRest-next : IsRest traces (i + 1) rest
  IsRest-next j =
      subst (λ (n : ℕ). get_elem? traces n ≡ get_elem? rest j)
        (let e : i + suc j ≡ i + 1 + j = omega arith in e) (same (suc j))

first_turn :
    (turns : List Turn) → 1 ≤ length turns → (turn : Turn) × (get_elem? turns 0 ≡ some turn)
first_turn [] h = absurd (omega (arith, h))
first_turn (turn ∷ turns) h = (turn, refl)

module _ (traces : List SessionTrace) where
  -- The first events lead to all turns.
  pub load-arrivals_from :
      (f : Turn → ℕ) (i : ℕ) (rest : List SessionTrace)
      → IsRest traces i rest
      → sum_by (load f traces) (arrivals_from i rest) ≡ sum_by (λ t. sum_by f t.turns) rest
  unfolding arrivals_from
  load-arrivals_from f i [] same = refl
  load-arrivals_from f i (trace ∷ rest) same =
      rw (IsRest-first traces i trace rest same)
        (omega (arith, load-arrivals_from f (i + 1) rest (IsRest-next traces i trace rest same)))

  pub IsDue-arrivals_from :
      (i : ℕ) (rest : List SessionTrace)
      → IsRest traces i rest
      → All (λ t. 1 ≤ length t.turns) rest
      → All (IsDue traces) (arrivals_from i rest)
  unfolding arrivals_from
  IsDue-arrivals_from i [] same h = tt
  IsDue-arrivals_from i (trace ∷ rest) same h =
      let (turn, found) = first_turn trace.turns h.0 in
      (
        (trace, turn, IsRest-first traces i trace rest same, found),
        IsDue-arrivals_from (i + 1) rest (IsRest-next traces i trace rest same) h.1,
      )
