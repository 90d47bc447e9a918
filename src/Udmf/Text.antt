-- ===== src/Udmf/Text.antt =====
-- The text of the map: the comments are blanked, the blocks between braces found, and each parsed
-- by the structure's function.
use doom_mc.Prelude.{ℕ, List, [], ◌∷◌, ◌++◌, Option, none, some, reverse, ◌==◌, if◌then◌else◌}
use doom_mc.Result.{Result, ok, fault, ◌>>=◌}

abbrev pub blank : ℕ
blank = 32

abbrev pub newline : ℕ
newline = 10

abbrev pub slash : ℕ
slash = 47

abbrev pub star : ℕ
star = 42

-- `while(*ptr == ' '){ptr++;}`
abbrev pub skip_spaces : List ℕ → List ℕ
skip_spaces [] = []
skip_spaces (c ∷ cs) = if c == blank then skip_spaces cs else c ∷ cs

-- `space = strchr(key, ' '); if(space != NULL){*space = '\0';}`
abbrev pub cut_at_space : List ℕ → List ℕ
cut_at_space [] = []
cut_at_space (c ∷ cs) = if c == blank then [] else c ∷ cut_at_space cs

-- `parseBlock` between two characters: `block` is the text from the pointer of that name on, and
-- `key` is `none` while it is NULL.
pub record Parser {ℓ} (S : Type ℓ) : Type ℓ where
  pub structure : S
  pub block : List ℕ
  pub key : Option (List ℕ)

-- At a semicolon before any `=`, `strchr` gets the NULL that is still in `key`.
abbrev pub add_value {ℓ} :
    {S : Type ℓ} → (S → List ℕ → List ℕ → S) → Parser S → Option (List ℕ) → Result (Parser S)
add_value func p none = fault
add_value func p (some key) =
    ok (record p { structure = func p.structure key (skip_spaces p.block); block = [] })

abbrev pub parse_char {ℓ} :
    {S : Type ℓ} → (S → List ℕ → List ℕ → S) → Parser S → ℕ → Result (Parser S)
parse_char func p c =
    if c == 61
    then ok (record p { block = []; key = some (cut_at_space (skip_spaces p.block)) })
    else if c == 59
    then add_value func p p.key
    else ok (record p { block = p.block ++ c ∷ [] })

unfoldable pub parse_chars {ℓ} :
    {S : Type ℓ} → (S → List ℕ → List ℕ → S) → Parser S → List ℕ → Result (Parser S)
parse_chars func p [] = ok p
parse_chars func p (c ∷ cs) = parse_char func p c >>= λ p'. parse_chars func p' cs

unfoldable pub parse_block {ℓ} : {S : Type ℓ} → (S → List ℕ → List ℕ → S) → S → List ℕ → Result S
unfolding parse_chars
parse_block func structure block =
    parse_chars func (record { structure = structure; block = []; key = none }) block >>= λ p.
    ok p.structure

-- Where the pass over the comments stands. `starred` is right behind the slash of `/*`: the inner
-- loop blanks that slash and stops at the star, which the outer loop then steps over.
pub data Mode : Type 0 where
  outside line_comment starred : Mode

abbrev pub after_slash : ℕ → ℕ × Mode
after_slash next =
    if next == slash
    then (blank, line_comment)
    else if next == star
    then (blank, starred)
    else (slash, outside)

abbrev pub clean_char : Mode → ℕ → ℕ → ℕ × Mode
clean_char outside c next =
    if c == slash then after_slash next else if c == newline then (blank, outside) else (c, outside)
clean_char line_comment c next = if c == newline then (blank, outside) else (blank, line_comment)
clean_char starred c next = (c, outside)

abbrev pub first_char : List ℕ → ℕ
first_char [] = 0
first_char (c ∷ cs) = c

-- A line comment that no newline ends is blanked beyond the end of the buffer.
unfoldable pub clean_chars : Mode → List ℕ → Result (List ℕ)
clean_chars outside [] = ok []
clean_chars line_comment [] = fault
clean_chars starred [] = ok []
clean_chars mode (c ∷ cs) =
    let (c', mode') = clean_char mode c (first_char cs) in
    clean_chars mode' cs >>= λ cs'. ok (c' ∷ cs')

unfoldable pub remove_comments : List ℕ → Result (List ℕ)
unfolding clean_chars
remove_comments contents = clean_chars outside contents

-- `strtok_r(contents, "}", &savePtr)`: the pieces between the braces that are not empty, up to the
-- terminator.
abbrev pub add_piece : List ℕ → List (List ℕ) → List (List ℕ)
add_piece [] pieces = pieces
add_piece (c ∷ cs) pieces = (c ∷ cs) ∷ pieces

abbrev pub until_zero : List ℕ → List ℕ
until_zero [] = []
until_zero (c ∷ cs) = if c == 0 then [] else c ∷ until_zero cs

unfoldable pub pieces_loop : List ℕ → List ℕ → List (List ℕ)
pieces_loop piece [] = add_piece piece []
pieces_loop piece (c ∷ cs) =
    let at_brace = c == 125 in
    let pieces = pieces_loop (if at_brace then [] else piece ++ c ∷ []) cs in
    if at_brace then add_piece piece pieces else pieces

unfoldable pub pieces : List ℕ → List (List ℕ)
unfolding pieces_loop
pieces contents = pieces_loop [] (until_zero contents)

abbrev pub before_brace : ℕ → Option (List ℕ × List ℕ) → Option (List ℕ × List ℕ)
before_brace c none = none
before_brace c (some (before, behind)) = some (c ∷ before, behind)

-- `strchr(block, '{')`: what is before the brace and behind it.
unfoldable pub split_at_brace : List ℕ → Option (List ℕ × List ℕ)
split_at_brace [] = none
split_at_brace (c ∷ cs) =
    let later = split_at_brace cs in if c == 123 then some ([], cs) else before_brace c later

-- The word in front of the brace, from the last character back; there has to be a space before it.
-- Without one the search leaves the piece, which is not modelled further.
unfoldable pub word_loop : List ℕ → List ℕ → Result (List ℕ)
word_loop [] word = fault
word_loop (c ∷ before) word =
    let further = word_loop before (c ∷ word) in if c == blank then ok word else further

abbrev pub word_from : List ℕ → Result (List ℕ)
word_from [] = fault
word_from (c ∷ before) = word_loop before (c ∷ [])

unfoldable pub block_word : List ℕ → Result (List ℕ)
unfolding word_loop
block_word before = word_from (skip_spaces (reverse before))
