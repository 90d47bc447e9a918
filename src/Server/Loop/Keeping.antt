-- ===== src/Server/Loop/Keeping.antt =====
-- What a call about one client leaves as it is, for each way in which the call ends.
use doom_mc.Prelude.{
  ℕ, ◌≡◌, ◌≢◌, refl, Bool, true, false, Option, List, length, get_elem?, arith, ◌∙◌, ap, sym, ◌==◌,
  if◌then◌else◌, inl, inr, ==_ne, ==_refl, Bool-cases,
}
use doom_mc.Wire.Cursor
use doom_mc.Wire.Cursor.{Reader, at, clear}
use doom_mc.Lobby.Slots.{taken}
use mathlib.Core.Path.{subst}
use doom_mc.Server.{
  Client, Server, Step, returned, threw, undefined, Act, ◌then◌, set_client, play_number,
  login_number, none_number, config_number,
}
use doom_mc.Server.Table.{IsTable}
use doom_mc.Server.Handling.{reading}

-- Which states follow which: NONE_STATE is left for any, LOGIN_STATE for CONFIG_STATE or PLAY_STATE, and
-- CONFIG_STATE for PLAY_STATE.
pub data Follows (m n : ℕ) : Type 0 where
  stays : n ≡ m → Follows m n
  greeted : m ≡ none_number → Follows m n
  acknowledged : m ≡ login_number → n ≡ config_number → Follows m n
  logged_in : m ≡ login_number → n ≡ play_number → Follows m n
  configured : m ≡ config_number → n ≡ play_number → Follows m n

pub Follows-same : (m n k : ℕ) → k ≡ n → Follows m n → Follows m k
Follows-same m n k e h = subst (Follows m) (sym e) h

-- The server, where there is one, is as `P` says.
abbrev pub EndsIn : (Server → Type 0) → Step → Type 0
EndsIn P (returned s) = P s
EndsIn P (threw e s) = P s
EndsIn P undefined = Unit

-- The table stays in order, all clients but `c` are as they were, and the state of `c` follows its own.
pub record Within (c : ℕ) (s s' : Server) : Type 0 where
  pub in_order : IsTable s → IsTable s'
  pub others : (d : ℕ) → d ≢ c → s'.clients d ≡ s.clients d
  pub same_fd : (s'.clients c).fd ≡ (s.clients c).fd
  pub same_room : s'.max_connected ≡ s.max_connected
  pub follows : Follows (s.clients c).state (s'.clients c).state

pub Within-refl : (c : ℕ) (s : Server) → Within c s s
Within-refl c s = record {
  in_order = λ t. t;
  others = λ d ne. refl;
  same_fd = refl;
  same_room = refl;
  follows = stays refl;
}

-- The call `a` at any point of a step that began at `s`.
module _ (c : ℕ) (s : Server) where
  abbrev pub Keeps : Act → Type 0
  Keeps a = (t : Server) → Within c s t → EndsIn (Within c s) (a t)

  pub after :
      (t : Server) (r : Step) (a b : Act)
      → a t ≡ r
      → EndsIn (Within c s) r
      → Keeps b
      → EndsIn (Within c s) ((a then b) t)
  after t (returned u) a b e v w = rw (e, ◌then◌) (w u v)
  after t (threw x u) a b e v w = rw (e, ◌then◌) v
  after t undefined a b e v w = rw (e, ◌then◌) tt

  pub then-Keeps : (a b : Act) → Keeps a → Keeps b → Keeps (a then b)
  then-Keeps a b v w t h = after t (a t) a b refl (v t h) w

  pub if-Keeps :
      (test : Bool) (a b : Act) (t : Server)
      → EndsIn (Within c s) (a t)
      → EndsIn (Within c s) (b t)
      → EndsIn (Within c s) (if test then a t else b t)
  if-Keeps true a b t v w = v
  if-Keeps false a b t v w = w

  reading_by {ℓ} :
      {A : Type ℓ} (m : Reader A) (bytes : List ℕ) (k : A → List ℕ → Act) (o : Cursor.Outcome A)
      → m (at bytes clear) ≡ o
      → ((a : A) (rest : List ℕ) → Keeps (k a rest))
      → Keeps (reading m bytes k)
  reading_by m bytes k (Cursor.done a more) e w t h = rw (e, reading) (w a more.rest t h)
  reading_by m bytes k Cursor.fault e w t h = rw (e, reading) tt

  pub reading-Keeps {ℓ} :
      {A : Type ℓ} (m : Reader A) (bytes : List ℕ) (k : A → List ℕ → Act)
      → ((a : A) (rest : List ℕ) → Keeps (k a rest))
      → Keeps (reading m bytes k)
  reading-Keeps m bytes k w = reading_by m bytes k (m (at bytes clear)) refl w

  -- A write to `c` itself that keeps its socket and its index.
  pub write-Within :
      (client : Client) (t : Server)
      → Within c s t
      → client.fd ≡ (t.clients c).fd
      → client.index ≡ (t.clients c).index
      → Follows (s.clients c).state client.state
      → Within c s (set_client c client t)
  write-Within client t w fd index move = record {
    in_order = λ o.
        let t_order = w.in_order o in
        record {
          sized = t_order.sized;
          small = t_order.small;
          counted = t_order.counted;
          placed = λ i d e. elim (Bool-cases (d == c)) [
            | inl here ↦
                let d_c : c ≡ d = ground arith in
                rw here (index ∙ ap (λ (k : ℕ). (t.clients k).index) d_c ∙ t_order.placed i d e)
            | inr other ↦ rw other (t_order.placed i d e)
          ];
        };
    others = λ d ne. rw (==_ne d c ne) (w.others d ne);
    same_fd = rw ==_refl (fd ∙ w.same_fd);
    same_room = w.same_room;
    follows = rw ==_refl move;
  }

  -- A step that writes no client and no slot.
  pub aside-Within :
      (t u : Server)
      → Within c s t
      → u.clients ≡ t.clients
      → u.connected ≡ t.connected
      → u.connected_count ≡ t.connected_count
      → u.max_connected ≡ t.max_connected
      → Within c s u
  aside-Within t u w clients slots count room = record {
    in_order = λ o.
        let t_order = w.in_order o in
        record {
          sized = ap length slots ∙ t_order.sized ∙ sym room;
          small = omega (arith, room, t_order.small);
          counted = count ∙ t_order.counted ∙ ap taken (sym slots);
          placed = λ i d e.
              ap (λ (k : ℕ → Client). (k d).index) clients
              ∙ t_order.placed i d (ap (λ (k : List (Option ℕ)). get_elem? k i) (sym slots) ∙ e);
        };
    others = λ d ne. ap (λ (k : ℕ → Client). k d) clients ∙ w.others d ne;
    same_fd = ap (λ (k : ℕ → Client). (k c).fd) clients ∙ w.same_fd;
    same_room = room ∙ w.same_room;
    follows =
        subst (λ (k : ℕ → Client). Follows (s.clients c).state (k c).state) (sym clients) w.follows;
  }
