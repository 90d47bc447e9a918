-- ===== src/Wire/Uuid.antt =====
-- `createOffline`: the identifier of a player who has none.
use doom_mc.Prelude.{
  ℕ, zero, suc, ◌+◌, ◌/◌, ◌%◌, ◌<◌, ◌≡◌, ◌≢◌, ◌∙◌, ap, List, [], ◌∷◌, ◌++◌, length, set, get_or,
  All, arith, length-set,
}
use doom_mc.Wire.Endian.{store, load}
use doom_mc.Wire.Endian.Laws.{store-load}
use doom_mc.Wire.Paletted.Filling.{get_or-set_self, get_or-set_ne}

-- "OfflinePlayer:"
abbrev pub offline_prefix : List ℕ
offline_prefix = 79 ∷ 102 ∷ 102 ∷ 108 ∷ 105 ∷ 110 ∷ 101 ∷ 80 ∷ 108 ∷ 97 ∷ 121 ∷ 101 ∷ 114 ∷ 58 ∷ []

-- Bytes 6 and 8: `& 0x0f`, `| 0x30`, and `& 0x3f`, `| 0x80`.
unfoldable pub stamp_version : List ℕ → List ℕ
stamp_version digest =
    set (set digest 6 (get_or digest 6 0 % 16 + 0x30)) 8 (get_or digest 8 0 % 64 + 0x80)

-- `md5` is the digest of OpenSSL, of 16 bytes; `UUID_t` is an integer of 128 bits.
unfoldable pub create_offline : (List ℕ → List ℕ) → List ℕ → ℕ
unfolding stamp_version
create_offline md5 username = load (stamp_version (md5 (offline_prefix ++ username)))

All-set :
    (bytes : List ℕ) (i b : ℕ)
    → b < 256
    → All (λ a. a < 256) bytes
    → All (λ a. a < 256) (set bytes i b)
All-set [] i b small h = h
All-set (a ∷ bytes) zero b small (first, others) = (small, others)
All-set (a ∷ bytes) (suc i) b small (first, others) = (first, All-set bytes i b small others)

stored :
    (digest : List ℕ)
    → length digest ≡ 16
    → All (λ a. a < 256) digest
    → store 16 (load (stamp_version digest)) ≡ stamp_version digest
unfolding stamp_version
stored digest size bytes =
    let once = set digest 6 (get_or digest 6 0 % 16 + 0x30) in
    let twice = set once 8 (get_or digest 8 0 % 64 + 0x80) in
    let sized : length twice ≡ 16 = length-set once 8 _ ∙ length-set digest 6 _ ∙ size in
    ap (λ n. store n (load twice)) {x = 16} (omega (arith, sized))
    ∙ store-load twice (All-set once 8 _ (omega arith) (All-set digest 6 _ (omega arith) bytes))

-- The 16 bytes that go out for such a player, in memory's order, are the digest's except for two: byte 6
-- carries version 3 above the digest's low half, byte 8 the variant above its low 6 bits. The
-- identifier is never 0, which stands for none.
pub create_offline_lem :
    (md5 : List ℕ → List ℕ) (username : List ℕ)
    → length (md5 (offline_prefix ++ username)) ≡ 16
    → All (λ a. a < 256) (md5 (offline_prefix ++ username))
    → (get_or (store 16 (create_offline md5 username)) 6 0 / 16 ≡ 3)
      × (get_or (store 16 (create_offline md5 username)) 6 0 % 16
          ≡ get_or (md5 (offline_prefix ++ username)) 6 0 % 16)
      × (get_or (store 16 (create_offline md5 username)) 8 0 / 64 ≡ 2)
      × (get_or (store 16 (create_offline md5 username)) 8 0 % 64
          ≡ get_or (md5 (offline_prefix ++ username)) 8 0 % 64)
      × ((i : ℕ)
          → i ≢ 6
          → i ≢ 8
          → get_or (store 16 (create_offline md5 username)) i 0
            ≡ get_or (md5 (offline_prefix ++ username)) i 0)
      × (create_offline md5 username ≢ 0)
unfolding create_offline stamp_version
create_offline_lem md5 username size bytes =
    let digest = md5 (offline_prefix ++ username) in
    let back = stored digest size bytes in
    let once = set digest 6 (get_or digest 6 0 % 16 + 0x30) in
    let once_size = length-set digest 6 (get_or digest 6 0 % 16 + 0x30) in
    let at_8 =
      ap (λ l. get_or l 8 0) back
      ∙ get_or-set_self once 8 (get_or digest 8 0 % 64 + 0x80) (omega (arith, size, once_size)) in
    let at_6 =
      ap (λ l. get_or l 6 0) back
      ∙ get_or-set_ne once 8 6 (get_or digest 8 0 % 64 + 0x80) (λ e. omega (arith, e))
      ∙ get_or-set_self digest 6 (get_or digest 6 0 % 16 + 0x30) (omega (arith, size)) in
    (
      omega (arith, at_6),
      omega (arith, at_6),
      omega (arith, at_8),
      omega (arith, at_8),
      λ i not_6 not_8.
          ap (λ l. get_or l i 0) back
          ∙ get_or-set_ne once 8 i (get_or digest 8 0 % 64 + 0x80) (λ e. not_8 (omega (arith, e)))
          ∙ get_or-set_ne digest 6 i (get_or digest 6 0 % 16 + 0x30)
              (λ e. not_6 (omega (arith, e))),
      λ e. omega (arith, at_6, ap (λ n. get_or (store 16 n) 6 0) e),
    )
