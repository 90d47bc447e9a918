-- ===== src/Lobby/Roster.antt =====
-- The lobby as a roster: who is in it, in no order, of how many that may be. What the lobby does to
-- its slots is one step of the roster each.
use doom_mc.Prelude.{
  ℕ, zero, suc, ◌<◌, ◌≡◌, refl, ap, List, [], ◌∷◌, Option, none, some, get_elem?, set, length,
}
use mathlib.Core.List.{Perm}
use mathlib.Core.List.Perm
use doom_mc.Lobby.{Lobby}
use doom_mc.Lobby.Slots.{taken}

pub record Roster : Type 0 where
  pub members : List ℕ
  pub capacity : ℕ

pub data RosterStep : Roster → Roster → Type 0 where
  enter :
      {r r' : Roster} (p : ℕ)
      → length r.members < r.capacity
      → r'.capacity ≡ r.capacity
      → Perm r'.members (p ∷ r.members)
      → RosterStep r r'
  exit :
      {r r' : Roster} (p : ℕ)
      → r'.capacity ≡ r.capacity
      → Perm r.members (p ∷ r'.members)
      → RosterStep r r'
  stay : {r r' : Roster} → r' ≡ r → RosterStep r r'

-- The players in the slots.
abbrev pub occupants : List (Option ℕ) → List ℕ
occupants [] = []
occupants (none ∷ slots) = occupants slots
occupants (some p ∷ slots) = p ∷ occupants slots

abbrev pub roster : Lobby → Roster
roster l = record { members = occupants l.players; capacity = l.max_players }

pub length-occupants : (slots : List (Option ℕ)) → length (occupants slots) ≡ taken slots
length-occupants [] = refl
length-occupants (none ∷ slots) = length-occupants slots
length-occupants (some p ∷ slots) = ap suc (length-occupants slots)

no_slot : {s : Option ℕ} → ¬ (none ≡ some s)
no_slot e = cc

not_free : {q : ℕ} → ¬ (some (some q) ≡ some none)
not_free e = cc

not_taken : {q : ℕ} → ¬ (some none ≡ some (some q))
not_taken e = cc

seated : {p q : ℕ} → some (some p) ≡ some (some q) → p ≡ q
seated e = cc

pub occupants-set-some :
    (slots : List (Option ℕ)) (i p : ℕ)
    → get_elem? slots i ≡ some none
    → Perm (occupants (set slots i (some p))) (p ∷ occupants slots)
occupants-set-some [] i p e = absurd (no_slot e)
occupants-set-some (none ∷ slots) zero p e = Perm.rfl
occupants-set-some (some q ∷ slots) zero p e = absurd (not_free e)
occupants-set-some (none ∷ slots) (suc i) p e = occupants-set-some slots i p e
occupants-set-some (some q ∷ slots) (suc i) p e =
    Perm.trans (Perm.cons q (occupants-set-some slots i p e)) (Perm.swap p q (occupants slots))

pub occupants-set-none :
    (slots : List (Option ℕ)) (i p : ℕ)
    → get_elem? slots i ≡ some (some p)
    → Perm (occupants slots) (p ∷ occupants (set slots i none))
occupants-set-none [] i p e = absurd (no_slot e)
occupants-set-none (none ∷ slots) zero p e = absurd (not_taken e)
occupants-set-none (some q ∷ slots) zero p e = rw (seated e) Perm.rfl
occupants-set-none (none ∷ slots) (suc i) p e = occupants-set-none slots i p e
occupants-set-none (some q ∷ slots) (suc i) p e =
    Perm.trans (Perm.cons q (occupants-set-none slots i p e))
      (Perm.swap p q (occupants (set slots i none)))
