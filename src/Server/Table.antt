-- ===== src/Server/Table.antt =====
-- The table of connected clients: `createClient` and `removeClient` keep it in order.
use doom_mc.Prelude.{
  ℕ, ◌+◌, ◌-◌, ◌%◌, ◌^◌, ◌≤◌, ◌<◌, ◌≡◌, ◌≢◌, refl, true, false, Option, none, some, ◌∷◌, length,
  get_elem?, set, arith, ◌∙◌, ◌==◌, leb, length-set, get_elem?-set_self, get_elem?_in_range, ◌⊎◌,
  inl, inr, dec_lt,
}
use doom_mc.Lobby.{update}
use doom_mc.Lobby.Slots.{taken, taken-le, taken-set-some, taken-set-none, in_range}
use doom_mc.Lobby.Free.{find_free-some, get_elem?-set-cases}
use doom_mc.Server.{Server, returned, new_client, create_client, remove_client}

-- The count is that of the clients in the table, and each of them knows its place.
pub record IsTable (s : Server) : Type 0 where
  pub sized : length s.connected ≡ s.max_connected
  pub small : s.max_connected < 2 ^ 32
  pub counted : s.connected_count ≡ taken s.connected
  pub placed : (i c : ℕ) → get_elem? s.connected i ≡ some (some c) → (s.clients c).index ≡ i

-- No slot holds `c`.
abbrev pub IsNew : ℕ → Server → Type 0
IsNew c s = (i d : ℕ) → get_elem? s.connected i ≡ some (some d) → d ≢ c

abbrev pub connect_at : ℕ → ℕ → ℕ → Server → Server
connect_at c socket i s = record s {
  clients = update s.clients c (new_client socket i);
  connected = set s.connected i (some c);
  watched = update s.watched socket true;
  connected_count = (s.connected_count + 1) % 2 ^ 32;
}

connect_at-IsTable :
    (c socket i : ℕ) (s : Server)
    → IsTable s
    → IsNew c s
    → get_elem? s.connected i ≡ some none
    → IsTable (connect_at c socket i s)
unfolding new_client
connect_at-IsTable c socket i s t fresh free = record {
  sized = length-set s.connected i (some c) ∙ t.sized;
  small = t.small;
  counted = omega (
    arith,
    t.counted,
    taken-set-some s.connected i c free,
    taken-le (set s.connected i (some c)),
    length-set s.connected i (some c),
    t.sized,
    t.small,
  );
  placed = λ j d e.
      elim (get_elem?-set-cases s.connected i j (some c) (some d) e
        (in_range s.connected i none free)) [
          | inl (same, is_c) ↦ let d_is : (d == c) ≡ true = ground arith in rw (d_is, same) refl
          | inr (other, there) ↦
              let differs = fresh j d there in
              let d_not : (d == c) ≡ false = ground arith in rw d_not (t.placed j d there)
        ];
}

-- `createClient` of a new client always returns and keeps the table in order: where the server is
-- full it closes the socket and changes nothing else, and otherwise the client gets a free slot, its
-- index, and its socket is watched.
pub create_client-IsTable :
    (c socket : ℕ) (s : Server)
    → IsTable s
    → IsNew c s
    → ((s.max_connected ≤ s.connected_count)
        × (create_client c socket s
            ≡ returned (record s { closed_sockets = socket ∷ s.closed_sockets })))
      ⊎ ((i : ℕ) × (get_elem? s.connected i ≡ some none)
          × (create_client c socket s ≡ returned (connect_at c socket i s))
          × IsTable (connect_at c socket i s))
unfolding create_client
create_client-IsTable c socket s t fresh = elim (dec_lt s.connected_count s.max_connected) [
  | no full ↦
      let over : leb s.max_connected s.connected_count ≡ true = ground arith in
      inl (omega arith, rw over refl)
  | yes space ↦
      let under : leb s.max_connected s.connected_count ≡ false = ground arith in
      let (i, found, free) = find_free-some s.connected (omega (arith, t.counted, t.sized)) in
      inr (i, free, rw (under, found) refl, connect_at-IsTable c socket i s t fresh free)
]

abbrev pub disconnect_at : ℕ → ℕ → Server → Server
disconnect_at n c s = record s {
  connected = set s.connected n none;
  connected_count = (s.connected_count + (2 ^ 32 - 1)) % 2 ^ 32;
  watched = update s.watched (s.clients c).fd false;
}

pub disconnect_at-IsTable :
    (n c : ℕ) (s : Server)
    → IsTable s
    → get_elem? s.connected n ≡ some (some c)
    → IsTable (disconnect_at n c s)
disconnect_at-IsTable n c s t here = record {
  sized = length-set s.connected n none ∙ t.sized;
  small = t.small;
  counted = omega (
    arith,
    t.counted,
    taken-set-none s.connected n c here,
    taken-le s.connected,
    t.sized,
    t.small,
  );
  placed = λ j d e.
      elim (get_elem?-set-cases s.connected n j none (some d) e
        (in_range s.connected n (some c) here)) [
          | inl (same, is_d) ↦ cc is_d
          | inr (other, there) ↦ t.placed j d there
        ];
}

-- `removeClient` of a slot of the table returns with that slot empty and the table in order, whether
-- or not the slot held a client.
remove_client-IsTable :
    (n : ℕ) (s : Server)
    → IsTable s
    → n < s.max_connected
    → (s' : Server) × (remove_client n s ≡ returned s')
      × (get_elem? s'.connected n ≡ some none)
      × IsTable s'
unfolding remove_client
remove_client-IsTable n s t low =
    let (slot, here) = get_elem?_in_range s.connected n (omega (arith, t.sized)) in
    by_slot slot here
  where
    by_slot :
        (slot : Option ℕ)
        → get_elem? s.connected n ≡ some slot
        → (s' : Server) × (remove_client n s ≡ returned s')
          × (get_elem? s'.connected n ≡ some none)
          × IsTable s'
    by_slot none here = (s, rw (here, remove_client) refl, here, t)
    by_slot (some c) here = (
      disconnect_at n c s,
      rw (here, remove_client) refl,
      get_elem?-set_self s.connected n none (in_range s.connected n (some c) here),
      disconnect_at-IsTable n c s t here,
    )
