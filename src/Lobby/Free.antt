-- ===== src/Lobby/Free.antt =====
-- The first free slot of a table of pointers.
use doom_mc.Prelude.{
  ℕ, suc, ◌<◌, ◌≡◌, refl, Option, none, some, List, [], ◌∷◌, length, get_elem?, set, arith, ap, ◌∙◌,
  sym, ℕ_discrete, get_elem?-set_self, get_elem?-set_ne, ◌⊎◌, inl, inr, ◌≢◌,
}
use doom_mc.Lobby.Members.{find_free}
use doom_mc.Lobby.Slots.{taken}

pub find_free-some :
    (slots : List (Option ℕ))
    → taken slots < length slots
    → (i : ℕ) × (find_free slots ≡ some i) × (get_elem? slots i ≡ some none)
unfolding find_free
find_free-some [] h = absurd (omega arith)
find_free-some (none ∷ slots) h = (0, refl, refl)
find_free-some (some p ∷ slots) h =
    let (i, found, free) = find_free-some slots (omega arith) in (suc i, rw found refl, free)

-- What stands in a slot after one slot is written.
pub get_elem?-set-cases :
    (slots : List (Option ℕ)) (i j : ℕ) (v w : Option ℕ)
    → get_elem? (set slots i v) j ≡ some w
    → i < length slots
    → ((i ≡ j) × (v ≡ w)) ⊎ ((i ≢ j) × (get_elem? slots j ≡ some w))
get_elem?-set-cases slots i j v w e h = elim (ℕ_discrete i j) [
  | yes same ↦
      let there = get_elem?-set_self slots i v h in
      let here : get_elem? (set slots i v) i ≡ some w = ap (get_elem? (set slots i v)) same ∙ e in
      inl (same, cc (there, here))
  | no other ↦ inr (other, sym (get_elem?-set_ne slots v other) ∙ e)
]
