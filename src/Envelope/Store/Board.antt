-- ===== src/Envelope/Store/Board.antt =====
-- What the outbox of a store promises: a board of tickets, where an envelope is offered, and one
-- claimant takes each offer. Retention may take any ticket from the board when one is offered.
use workflow_plugin_signal.Base.{
  ℕ, ◌+◌, ◌≤◌, ◌≡◌, subst, ◌⊎◌, inl, inr, Option, none, some, List, [], ◌∷◌, arith, if◌then◌else◌,
  Str, str_eq, str_eq_iff, Bool-cases,
}

-- A ticket is taken under a lease.
pub data Ticket : Type 0 where
  waiting : Ticket
  taken : Str → Ticket

abbrev pub Board : Type 0
Board = Str → Option Ticket

abbrev pub put : Str → Ticket → Board → Board
put k t b j = if str_eq k j then some t else b j

pub data Event : Type 0 where
  idle : Event
  offer : Str → Event
  take : Str → Str → Event

pub data Step : Event → Board → Board → Type 0 where
  nothing_done : {b b' : Board} → ((j : Str) → b' j ≡ b j) → Step idle b b'
  offered :
      {b b' : Board} (k : Str)
      → ((j : Str) → (b' j ≡ put k waiting b j) ⊎ (b' j ≡ none))
      → Step (offer k) b b'
  claimed :
      {b b' : Board} (k lease : Str)
      → b k ≡ some waiting
      → ((j : Str) → b' j ≡ put k (taken lease) b j)
      → Step (take k lease) b b'

pub data Run : List Event → Board → Board → Type 0 where
  done : {b : Board} → Run [] b b
  then_step :
      {e : Event} {es : List Event} {b b' b'' : Board}
      → Step e b b'
      → Run es b' b''
      → Run (e ∷ es) b b''

-- How many of the events take the ticket of a reference, or offer it.
abbrev pub takes_of : Str → Event → ℕ
takes_of k idle = 0
takes_of k (offer j) = 0
takes_of k (take j lease) = if str_eq j k then 1 else 0

abbrev pub offers_of : Str → Event → ℕ
offers_of k idle = 0
offers_of k (offer j) = if str_eq j k then 1 else 0
offers_of k (take j lease) = 0

unfoldable pub count : (Event → ℕ) → List Event → ℕ
count f [] = 0
count f (e ∷ es) = f e + count f es

abbrev pub held : Option Ticket → ℕ
held none = 0
held (some waiting) = 1
held (some (taken lease)) = 0

held-bound : (o : Option Ticket) → held o ≤ 1
held-bound none = omega arith
held-bound (some waiting) = omega arith
held-bound (some (taken lease)) = omega arith

takes_once :
    (k : Str) (e : Event) (b b' : Board)
    → Step e b b'
    → takes_of k e + held (b' k) ≤ offers_of k e + held (b k)
takes_once k idle b b' (nothing_done same) = rw (same k) (omega arith)
takes_once k (offer j) b b' (offered j' after) = elim (after k) [
  | inl left ↦ elim (Bool-cases (str_eq j k)) [
    | inl here ↦ rw (left, here) (omega arith)
    | inr other ↦ rw (left, other) (omega arith)
  ]
  | inr lost ↦ rw lost (omega arith)
]
takes_once k (take j lease) b b' (claimed j' lease' before after) = elim (Bool-cases (str_eq j k)) [
  | inl here ↦
      let same : b k ≡ some waiting =
        subst (λ i. b i ≡ some waiting) ((str_eq_iff j k).0 here) before in
      rw (after k, here, same) (omega arith)
  | inr other ↦ rw (after k, other) (omega arith)
]

-- On a board no ticket is taken more often than it is offered and was waiting at first.
pub takes_all :
    (k : Str) (es : List Event) (b b' : Board)
    → Run es b b'
    → count (takes_of k) es + held (b' k) ≤ count (offers_of k) es + held (b k)
unfolding count
takes_all k [] b b' done = omega arith
takes_all k (e ∷ es) b b'' (then_step {b' = b'} first rest) =
    let one = takes_once k e b b' first in let others = takes_all k es b' b'' rest in omega arith
