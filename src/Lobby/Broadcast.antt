-- ===== src/Lobby/Broadcast.antt =====
-- Who hears of a player: the loops stop at `playerCount`, not at the last slot.
use doom_mc.Prelude.{
  ℕ, zero, suc, ◌≤◌, ◌<◌, ◌≡◌, ◌≢◌, false, Option, none, some, List, [], ◌∷◌, ◌++◌, length,
  get_elem?, All, arith, append-nil, append_assoc, ◌∙◌, ap, ◌==◌, if◌then◌else◌, ◌⊎◌, inl, inr,
  Bool-cases, ◌↔◌,
}
use doom_mc.Player.{Packet, Player}
use doom_mc.Lobby.{up, Lobby, done, ◌>>=◌, send, send_all, tell, tell_others, broadcast}

-- The players in the first `n` slots, without `p`.
abbrev pub audience : ℕ → List (Option ℕ) → ℕ → List ℕ
audience zero slots p = []
audience (suc n) [] p = []
audience (suc n) (none ∷ slots) p = audience n slots p
audience (suc n) (some q ∷ slots) p =
    let rest = audience n slots p in if q == p then rest else q ∷ rest

-- The packets to one socket, and to each of a row of players.
abbrev pub letters : ℕ → List Packet → List (ℕ × Packet)
letters fd [] = []
letters fd (packet ∷ packets) = (fd, packet) ∷ letters fd packets

abbrev pub mailing : (ℕ → Player) → List Packet → List ℕ → List (ℕ × Packet)
mailing heap packets [] = []
mailing heap packets (q ∷ qs) = letters (heap q).fd packets ++ mailing heap packets qs

abbrev pub CanHear : Lobby → List ℕ → Type 0
CanHear l qs = All (λ q. l.link (l.heap q).fd ≡ up) qs

abbrev pub with_sent : Lobby → List (ℕ × Packet) → Lobby
with_sent l sent = record l { sent = sent }

pub send_up :
    (l : Lobby) (q : ℕ) (packet : Packet)
    → l.link (l.heap q).fd ≡ up
    → send q packet l ≡ done tt (with_sent l (l.sent ++ ((l.heap q).fd, packet) ∷ []))
unfolding send
send_up l q packet h = rw (h, send)

send_all_up :
    (packets : List Packet) (l : Lobby) (q : ℕ)
    → l.link (l.heap q).fd ≡ up
    → send_all q packets l ≡ done tt (with_sent l (l.sent ++ letters (l.heap q).fd packets))
unfolding send_all
send_all_up [] l q h = rw append-nil
send_all_up (packet ∷ packets) l q h =
    rw (send_up l q packet h, ◌>>=◌)
      (send_all_up packets (with_sent l (l.sent ++ ((l.heap q).fd, packet) ∷ [])) q h
        ∙ rw append_assoc)

tell_others_up :
    (n : ℕ) (slots : List (Option ℕ)) (p : ℕ) (packets : List Packet) (l : Lobby)
    → n ≤ length slots
    → CanHear l (audience n slots p)
    → tell_others n slots p packets l
      ≡ done tt (with_sent l (l.sent ++ mailing l.heap packets (audience n slots p)))
unfolding tell_others tell
tell_others_up zero slots p packets l h hear = rw append-nil
tell_others_up (suc n) [] p packets l h hear = absurd (omega arith)
tell_others_up (suc n) (none ∷ slots) p packets l h hear =
    tell_others_up n slots p packets l (omega arith) hear
tell_others_up (suc n) (some q ∷ slots) p packets l h hear = elim (Bool-cases (q == p)) [
  | inl same ↦ rw same (tell_others_up n slots p packets l (omega arith) (rw same at hear))
  | inr other ↦
      let heard = rw other at hear in
      rw (other, send_all_up packets l q heard.0, ◌>>=◌)
        (tell_others_up n slots p packets (with_sent l (l.sent ++ letters (l.heap q).fd packets))
            (omega arith) heard.1
          ∙ rw append_assoc)
]

pub broadcast_run :
    (l : Lobby) (p : ℕ) (packets : List Packet)
    → l.player_count ≤ length l.players
    → CanHear l (audience l.player_count l.players p)
    → broadcast p packets l
      ≡ done tt
          (with_sent l (l.sent ++ mailing l.heap packets (audience l.player_count l.players p)))
unfolding broadcast
broadcast_run l p packets h hear = tell_others_up l.player_count l.players p packets l h hear

-- `q` stands in a list.
abbrev pub Among : ℕ → List ℕ → Type 0
Among q [] = ⊥
Among q (x ∷ xs) = (x ≡ q) ⊎ Among q xs

-- `q` has a slot among the first `n`.
abbrev pub SlotBelow : ℕ → ℕ → List (Option ℕ) → Type 0
SlotBelow q n slots = (i : ℕ) × (i < n) × (get_elem? slots i ≡ some (some q))

audience_sound :
    (n : ℕ) (slots : List (Option ℕ)) (p q : ℕ)
    → Among q (audience n slots p)
    → SlotBelow q n slots × (q ≢ p)
audience_sound zero slots p q h = elim h [ ]
audience_sound (suc n) [] p q h = elim h [ ]
audience_sound (suc n) (none ∷ slots) p q h =
    let ((i, lt, e), ne) = audience_sound n slots p q h in ((suc i, omega arith, e), ne)
audience_sound (suc n) (some x ∷ slots) p q h = elim (Bool-cases (x == p)) [
  | inl same ↦
      let ((i, lt, e), ne) = audience_sound n slots p q (rw same at h) in
      ((suc i, omega arith, e), ne)
  | inr other ↦ elim (rw other at h) [
    | inl x_q ↦ ((0, omega arith, ap (λ t. some (some t)) x_q), λ e. ground arith)
    | inr later ↦
        let ((i, lt, e), ne) = audience_sound n slots p q later in ((suc i, omega arith, e), ne)
  ]
]

audience_complete :
    (n : ℕ) (slots : List (Option ℕ)) (p q : ℕ) (i : ℕ)
    → i < n
    → get_elem? slots i ≡ some (some q)
    → q ≢ p
    → Among q (audience n slots p)
audience_complete zero slots p q i lt e ne = absurd (omega arith)
audience_complete (suc n) [] p q i lt e ne = cc
audience_complete (suc n) (none ∷ slots) p q zero lt e ne = cc
audience_complete (suc n) (none ∷ slots) p q (suc i) lt e ne =
    audience_complete n slots p q i (omega arith) e ne
audience_complete (suc n) (some x ∷ slots) p q zero lt e ne =
    let x_q : x ≡ q = ground arith in
    let other : (x == p) ≡ false = ground arith in rw other (inl x_q)
audience_complete (suc n) (some x ∷ slots) p q (suc i) lt e ne =
    let later = audience_complete n slots p q i (omega arith) e ne in
    elim (Bool-cases (x == p)) [ inl same ↦ rw same later | inr other ↦ rw other (inr later) ]

-- A broadcast about `p` sends its packets, in order, to each of its audience, and changes nothing
-- else. A player is in the audience exactly when it has a slot below `playerCount` and is not `p`: a
-- slot at or above the count, which is in use as soon as someone has left a lower one, hears nothing.
pub broadcast_lem :
    (l : Lobby) (p q : ℕ) (packets : List Packet)
    → l.player_count ≤ length l.players
    → CanHear l (audience l.player_count l.players p)
    → (broadcast p packets l
        ≡ done tt
            (with_sent l (l.sent ++ mailing l.heap packets (audience l.player_count l.players p))))
      × (Among q (audience l.player_count l.players p)
          ↔ (SlotBelow q l.player_count l.players × (q ≢ p)))
broadcast_lem l p q packets h hear = (
  broadcast_run l p packets h hear,
  (
    audience_sound l.player_count l.players p q,
    λ ((i, lt, e), ne). audience_complete l.player_count l.players p q i lt e ne,
  ),
)
