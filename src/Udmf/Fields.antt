-- ===== src/Udmf/Fields.antt =====
-- `parseBlock` on the text of a block, and a linedef that names no back side.
use doom_mc.Prelude.{
  ℕ, ◌≡◌, refl, ap, ◌∙◌, ◌≢◌, arith, false, List, [], ◌∷◌, ◌++◌, All, Option, none, some,
  append_assoc, append-nil, ==_ne,
}
use doom_mc.Result.{Result, ok, ◌>>=◌}
use doom_mc.Udmf.{Numbers, MapSector, Sidedef, Linedef, starts_with, add_linedef_val, side_back_key}
use doom_mc.Udmf.Blocks.{new_linedef}
use doom_mc.Udmf.Text.{Parser, skip_spaces, cut_at_space, parse_chars, parse_block}
use doom_mc.Udmf.Drawing.{sector_of, wall_heights, lower, higher}

-- No `=` and no semicolon.
abbrev pub IsPlain : List ℕ → Type 0
IsPlain = All (λ c. (c ≢ 61) × (c ≢ 59))

-- `key = value;` for each field, then the rest of the block.
abbrev pub text_of : List (List ℕ × List ℕ) → List ℕ → List ℕ
text_of [] rest = rest
text_of ((key, value) ∷ fields) rest =
    (key ++ 61 ∷ []) ++ ((value ++ 59 ∷ []) ++ text_of fields rest)

abbrev pub IsField : List ℕ × List ℕ → Type 0
IsField field = IsPlain field.0 × IsPlain field.1

abbrev pub add_fields {ℓ} :
    {S : Type ℓ} → (S → List ℕ → List ℕ → S) → S → List (List ℕ × List ℕ) → S
add_fields func s [] = s
add_fields func s ((key, value) ∷ fields) =
    add_fields func (func s (cut_at_space (skip_spaces key)) (skip_spaces value)) fields

module _ {S : Type 0} (func : S → List ℕ → List ℕ → S) where
  plain_char :
      (s : S) (block : List ℕ) (key : Option (List ℕ)) (c : ℕ) (rest : List ℕ)
      → c ≢ 61
      → c ≢ 59
      → parse_chars func (record { structure = s; block = block; key = key }) (c ∷ rest)
        ≡ parse_chars func (record { structure = s; block = block ++ c ∷ []; key = key }) rest
  unfolding parse_chars
  plain_char s block key c rest no_equals no_semicolon =
      rw (==_ne c 61 no_equals, ==_ne c 59 no_semicolon) refl

  plain_chars :
      (s : S) (block : List ℕ) (key : Option (List ℕ)) (cs rest : List ℕ)
      → IsPlain cs
      → parse_chars func (record { structure = s; block = block; key = key }) (cs ++ rest)
        ≡ parse_chars func (record { structure = s; block = block ++ cs; key = key }) rest
  plain_chars s block key [] rest plain = rw append-nil refl
  plain_chars s block key (c ∷ cs) rest (h, plain) =
      plain_char s block key c (cs ++ rest) h.0 h.1
      ∙ plain_chars s (block ++ c ∷ []) key cs rest plain
      ∙ rw append_assoc refl

  parse_field :
      (s : S) (key? : Option (List ℕ)) (key value rest : List ℕ)
      → IsField (key, value)
      → parse_chars func
          (record { structure = s; block = []; key = key? })
          ((key ++ 61 ∷ []) ++ ((value ++ 59 ∷ []) ++ rest))
        ≡ parse_chars func
            (record {
              structure = func s (cut_at_space (skip_spaces key)) (skip_spaces value);
              block = [];
              key = some (cut_at_space (skip_spaces key));
            })
            rest
  unfolding parse_chars
  parse_field s key? key value rest (plain_key, plain_value) = rw append_assoc (
      plain_chars s [] key? key _ plain_key
      ∙ rw append_assoc
          (plain_chars s [] (some (cut_at_space (skip_spaces key))) value (59 ∷ rest) plain_value))

  parse_fields :
      (s : S) (key? : Option (List ℕ)) (fields : List (List ℕ × List ℕ)) (rest : List ℕ)
      → All IsField fields
      → IsPlain rest
      → (parse_chars func (record { structure = s; block = []; key = key? }) (text_of fields rest)
          >>= λ p. ok p.structure)
        ≡ ok (add_fields func s fields)
  unfolding parse_chars
  parse_fields s key? [] rest plain end =
      let read = plain_chars s [] key? rest [] end in
      ap (λ (m : Result (Parser S)). m >>= λ p. ok p.structure) (rw append-nil at read)
  parse_fields s key? ((key, value) ∷ fields) rest (plain, more) end =
      ap (λ (m : Result (Parser S)). m >>= λ p. ok p.structure)
        (parse_field s key? key value (text_of fields rest) plain)
      ∙ parse_fields (func s (cut_at_space (skip_spaces key)) (skip_spaces value))
          (some (cut_at_space (skip_spaces key))) fields rest more end

  -- `parseBlock` on a block of fields, with anything but `=` and semicolons between and behind the
  -- parts, comes to an end and hands each key, cut to its word, and each value, from its first
  -- character that is no space, to the function of the structure, in their order.
  pub parse_block-fields :
      (s : S) (fields : List (List ℕ × List ℕ)) (rest : List ℕ)
      → All IsField fields
      → IsPlain rest
      → parse_block func s (text_of fields rest) ≡ ok (add_fields func s fields)
  unfolding parse_block
  parse_block-fields s fields rest plain end = parse_fields s none fields rest plain end

-- The keys of linedefs.
other_key_keeps :
    (n : Numbers) (l : Linedef) (key value : List ℕ)
    → starts_with side_back_key key ≡ false
    → (add_linedef_val n l key value).side_back ≡ l.side_back
unfolding add_linedef_val
other_key_keeps n l key value h = ground arith

other_keys_keep :
    (n : Numbers) (l : Linedef) (fields : List (List ℕ × List ℕ))
    → All (λ field. starts_with side_back_key (cut_at_space (skip_spaces field.0)) ≡ false) fields
    → (add_fields (add_linedef_val n) l fields).side_back ≡ l.side_back
other_keys_keep n l [] h = refl
other_keys_keep n l ((key, value) ∷ fields) (other, h) =
    other_keys_keep n (add_linedef_val n l (cut_at_space (skip_spaces key)) (skip_spaces value))
      fields h
    ∙ other_key_keeps n l (cut_at_space (skip_spaces key)) (skip_spaces value) other

zero_back :
    (sidedefs : List Sidedef) (sectors : List MapSector) (l : Linedef)
    → l.side_back ≡ 0
    → wall_heights sidedefs sectors l ≡ (
        sector_of sidedefs sectors l.side_front >>= λ front.
        (sector_of sidedefs sectors 0 >>= λ back. ok (
          lower back.height_floor front.height_floor,
          higher back.height_ceiling front.height_ceiling,
        )))
unfolding wall_heights
zero_back sidedefs sectors l h = rw h refl

-- A linedef whose block has no `sideback` gets the side 0 for it, not -1: its wall is lowered and
-- raised to the heights of the sector that the first sidedef of the map shows.
pub one_sided_wall :
    (n : Numbers) (fields : List (List ℕ × List ℕ)) (rest : List ℕ) (sidedefs : List Sidedef)
    (sectors : List MapSector)
    → All IsField fields
    → IsPlain rest
    → All (λ field. starts_with side_back_key (cut_at_space (skip_spaces field.0)) ≡ false) fields
    → (l : Linedef) × (parse_block (add_linedef_val n) new_linedef (text_of fields rest) ≡ ok l)
      × (wall_heights sidedefs sectors l ≡ (
          sector_of sidedefs sectors l.side_front >>= λ front.
          (sector_of sidedefs sectors 0 >>= λ back. ok (
            lower back.height_floor front.height_floor,
            higher back.height_ceiling front.height_ceiling,
          ))))
one_sided_wall n fields rest sidedefs sectors plain end others = (
  add_fields (add_linedef_val n) new_linedef fields,
  parse_block-fields (add_linedef_val n) new_linedef fields rest plain end,
  zero_back sidedefs sectors _ (other_keys_keep n new_linedef fields others),
)
