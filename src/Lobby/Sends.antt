-- ===== src/Lobby/Sends.antt =====
-- What a broadcast to all players leaves as it is, and the outcomes of a run.
use doom_mc.Prelude.{ℕ, zero, suc, ◌≡◌, refl, ◌∙◌, List, [], ◌∷◌, ◌++◌, Option, none, some}
use mathlib.Core.Path.{subst}
use doom_mc.Player.{Packet}
use doom_mc.Lobby.{Link, up, closed, broken, Lobby, M, Run, done, raised, fault, send}
use doom_mc.Result.{Exception}
use doom_mc.Lobby.Members.{send_each}
use doom_mc.Lobby.Joining.{IsFramed}

abbrev pub finished : Lobby → Run (Unit {0})
finished l = done tt l

abbrev pub left_by : Exception → Lobby → Run (Unit {0})
left_by e l = raised e l

abbrev pub lost : Run (Unit {0})
lost = fault

pub done_state : {l l' : Lobby} → finished l ≡ finished l' → l ≡ l'
done_state e = cc

not_raised : {e : Exception} {l l' : Lobby} → ¬ (left_by e l ≡ finished l')
not_raised h = cc

not_fault : {l' : Lobby} → ¬ (lost ≡ finished l')
not_fault h = cc

IsFramed-refl : (l : Lobby) → IsFramed l l
IsFramed-refl l = record {
  same_players = refl;
  same_count = refl;
  same_max = refl;
  same_epoll = refl;
  same_pipe = refl;
  same_fd = λ q. refl;
  same_index = λ q. refl;
}

IsFramed-trans : (a b c : Lobby) → IsFramed a b → IsFramed b c → IsFramed a c
IsFramed-trans a b c f g = record {
  same_players = g.same_players ∙ f.same_players;
  same_count = g.same_count ∙ f.same_count;
  same_max = g.same_max ∙ f.same_max;
  same_epoll = g.same_epoll ∙ f.same_epoll;
  same_pipe = g.same_pipe ∙ f.same_pipe;
  same_fd = λ q. g.same_fd q ∙ f.same_fd q;
  same_index = λ q. g.same_index q ∙ f.same_index q;
}

module _ (p : ℕ) (packet : Packet) where
  pub sent-IsFramed :
      (l : Lobby) → IsFramed l (record l { sent = l.sent ++ ((l.heap p).fd, packet) ∷ [] })
  sent-IsFramed l = record {
    same_players = refl;
    same_count = refl;
    same_max = refl;
    same_epoll = refl;
    same_pipe = refl;
    same_fd = λ q. refl;
    same_index = λ q. refl;
  }

  send-cases :
      (link : Link) (l l' : Lobby)
      → l.link (l.heap p).fd ≡ link
      → send p packet l ≡ finished l'
      → IsFramed l l'
  unfolding send
  send-cases up l l' is_up run =
      subst (IsFramed l) (done_state (rw (send, is_up) at run)) (sent-IsFramed l)
  send-cases closed l l' is_closed run = absurd (not_fault (rw (send, is_closed) at run))
  send-cases broken l l' is_broken run = absurd (not_raised (rw (send, is_broken) at run))

abbrev continued : M (Unit {0}) → Run (Unit {0}) → Run (Unit {0})
continued k r = elim r [ done a l ↦ k l | raised e l ↦ raised e l | fault ↦ fault ]

continued-done :
    (k : M (Unit {0})) (r : Run (Unit {0})) {l' : Lobby}
    → continued k r ≡ finished l'
    → (t : Lobby) × (r ≡ finished t) × (k t ≡ finished l')
continued-done k (done a t) run = (t, refl, run)
continued-done k (raised x t) run = absurd (not_raised run)
continued-done k fault run = absurd (not_fault run)

pub send_each-IsFramed :
    (left : ℕ) (slots : List (Option ℕ)) (packet : Packet) (l l' : Lobby)
    → send_each left slots packet l ≡ finished l'
    → IsFramed l l'
unfolding send_each
send_each-IsFramed zero slots packet l l' run =
    subst (IsFramed l) (done_state run) (IsFramed-refl l)
send_each-IsFramed (suc left) [] packet l l' run = absurd (not_fault run)
send_each-IsFramed (suc left) (none ∷ slots) packet l l' run =
    send_each-IsFramed left slots packet l l' run
send_each-IsFramed (suc left) (some p ∷ slots) packet l l' run =
    let (t, now, later) = continued-done (send_each left slots packet) (send p packet l) run in
    IsFramed-trans l t l' (send-cases p packet (l.link (l.heap p).fd) l t refl now)
      (send_each-IsFramed left slots packet t l' later)
