-- ===== src/Player/NoSkin.antt =====
-- `startPlay` in a lobby where somebody has no skin.
use doom_mc.Prelude.{
  ℕ, suc, zero, ◌+◌, ◌≡◌, refl, ap, ◌∙◌, ◌⊎◌, inl, inr, Option, none, some, List, [], ◌∷◌,
  get_elem?,
}
use doom_mc.Player.{Player, Packet}
use doom_mc.Player.Start.{
  list_skin, list_entry, join_bytes, list_entries, player_list_packet, opening_packets,
}

no_seat : {p : Player} → ¬ (none ≡ some (some p))
no_seat e = cc

not_seated : {p : Player} → ¬ (some none ≡ some (some p))
not_seated e = cc

seat_is : {p q : Player} → some (some q) ≡ some (some p) → q ≡ p
seat_is e = cc

no_list_skin :
    (value signature : Option (List ℕ))
    → (value ≡ none) ⊎ (signature ≡ none)
    → list_skin (record { signature = signature; value = value }) ≡ none
no_list_skin none signature h = refl
no_list_skin (some value) none h = refl
no_list_skin (some value) (some signature) (inl e) = cc
no_list_skin (some value) (some signature) (inr e) = cc

no_skin_entry :
    (now : ℕ) (unset : List ℕ) (p : Player)
    → (p.skin.value ≡ none) ⊎ (p.skin.signature ≡ none)
    → list_entry now unset p ≡ none
unfolding list_entry
no_skin_entry now unset p h = rw (list_entry, no_list_skin p.skin.value p.skin.signature h) refl

join_bytes-none : (entry : Option (List ℕ)) → join_bytes entry none ≡ none
join_bytes-none none = refl
join_bytes-none (some entry) = refl

no_skin_list :
    (now : ℕ) (unset : ℕ → List ℕ) (i j : ℕ) (slots : List (Option Player)) (p : Player)
    → get_elem? slots j ≡ some (some p)
    → (p.skin.value ≡ none) ⊎ (p.skin.signature ≡ none)
    → list_entries now unset i slots ≡ none
unfolding list_entries
no_skin_list now unset i j [] p e h = absurd (no_seat e)
no_skin_list now unset i zero (none ∷ slots) p e h = absurd (not_seated e)
no_skin_list now unset i zero (some q ∷ slots) p e h =
    let same : q ≡ p = seat_is e in rw (same, no_skin_entry now (unset i) p h) refl
no_skin_list now unset i (suc j) (none ∷ slots) p e h = no_skin_list now unset (i + 1) j slots p e h
no_skin_list now unset i (suc j) (some q ∷ slots) p e h =
    ap (join_bytes (list_entry now (unset i) q)) (no_skin_list now unset (i + 1) j slots p e h)
    ∙ join_bytes-none (list_entry now (unset i) q)

no_skin_packet :
    (now : ℕ) (unset : ℕ → List ℕ) (player_count j : ℕ) (slots : List (Option Player)) (p : Player)
    → get_elem? slots j ≡ some (some p)
    → (p.skin.value ≡ none) ⊎ (p.skin.signature ≡ none)
    → player_list_packet now unset player_count slots ≡ none
unfolding player_list_packet
no_skin_packet now unset player_count j slots p e h =
    rw (player_list_packet, no_skin_list now unset 0 j slots p e h) refl

pub opening_packets-no-skin :
    (now : ℕ) (unset : ℕ → List ℕ) (registry_codec : List ℕ) (config : List Packet)
    (eid player_count j : ℕ) (slots : List (Option Player)) (joining p : Player)
    → get_elem? slots j ≡ some (some p)
    → (p.skin.value ≡ none) ⊎ (p.skin.signature ≡ none)
    → opening_packets now unset registry_codec config eid player_count slots joining ≡ none
unfolding opening_packets
opening_packets-no-skin now unset registry_codec config eid player_count j slots joining p e h =
    rw (opening_packets, no_skin_packet now unset player_count j slots p e h) refl
