-- ===== src/Udmf/Comments.antt =====
-- What the pass over the comments leaves of the text.
use doom_mc.Prelude.{
  ℕ, suc, ◌+◌, ◌≡◌, refl, ap, ◌∙◌, ◌≢◌, arith, List, [], ◌∷◌, ◌++◌, All, length, replicate, ==_ne,
}
use doom_mc.Result.{Result, ok, throw, fault, ◌>>=◌}
use doom_mc.Udmf.Text.{
  outside, line_comment, blank, newline, slash, star, clean_chars, remove_comments,
}

line_char :
    (c : ℕ) (cs : List ℕ)
    → c ≢ newline
    → clean_chars line_comment (c ∷ cs) ≡ (clean_chars line_comment cs >>= λ cs'. ok (blank ∷ cs'))
unfolding clean_chars
line_char c cs h = rw (==_ne c newline h) refl

blank_first :
    (m : Result (List ℕ)) (n : ℕ)
    → ((m >>= λ cs. ok (replicate n blank ++ cs)) >>= λ cs. ok (blank ∷ cs))
      ≡ (m >>= λ cs. ok (replicate (suc n) blank ++ cs))
blank_first (ok cs) n = refl
blank_first (throw e) n = refl
blank_first fault n = refl

line_chars :
    (cs rest : List ℕ)
    → All (λ c. c ≢ newline) cs
    → clean_chars line_comment (cs ++ newline ∷ rest)
      ≡ (clean_chars outside rest >>= λ cs'. ok (replicate (suc (length cs)) blank ++ cs'))
unfolding clean_chars
line_chars [] rest h = refl
line_chars (c ∷ cs) rest (other, h) =
    line_char c (cs ++ newline ∷ rest) other
    ∙ ap (λ (m : Result (List ℕ)). m >>= λ cs'. ok (blank ∷ cs')) (line_chars cs rest h)
    ∙ blank_first (clean_chars outside rest) (suc (length cs))

-- A comment from two slashes to the end of its line becomes as many spaces, the newline included, and
-- the pass goes on behind it as at the start.
remove_comments-line_comment :
    (cs rest : List ℕ)
    → All (λ c. c ≢ newline) cs
    → remove_comments (slash ∷ slash ∷ (cs ++ newline ∷ rest))
      ≡ (remove_comments rest >>= λ cs'. ok (replicate (length cs + 3) blank ++ cs'))
unfolding remove_comments clean_chars
remove_comments-line_comment cs rest h =
    let count : length cs + 3 ≡ suc (suc (suc (length cs))) = omega arith in
    ap (λ (m : Result (List ℕ)). m >>= λ cs'. ok (blank ∷ cs'))
      (line_chars (slash ∷ cs) rest ((omega arith), h))
    ∙ blank_first (clean_chars outside rest) (suc (suc (length cs)))
    ∙ rw count refl

outside_char :
    (c : ℕ) (cs : List ℕ)
    → c ≢ slash
    → c ≢ newline
    → clean_chars outside (c ∷ cs) ≡ (clean_chars outside cs >>= λ cs'. ok (c ∷ cs'))
unfolding clean_chars
outside_char c cs no_slash no_newline = rw (==_ne c slash no_slash, ==_ne c newline no_newline) refl

outside_chars :
    (cs : List ℕ)
    → All (λ c. (c ≢ slash) × (c ≢ newline)) cs
    → clean_chars outside (cs ++ star ∷ slash ∷ []) ≡ ok (cs ++ star ∷ slash ∷ [])
unfolding clean_chars
outside_chars [] h = refl
outside_chars (c ∷ cs) (here, h) =
    outside_char c (cs ++ star ∷ slash ∷ []) here.0 here.1
    ∙ ap (λ (m : Result (List ℕ)). m >>= λ cs'. ok (c ∷ cs')) (outside_chars cs h)

-- A block comment stays where it is but for the slash that opens it: what is written in it is read as
-- part of the map.
remove_comments-star :
    (cs : List ℕ)
    → All (λ c. (c ≢ slash) × (c ≢ newline)) cs
    → remove_comments (slash ∷ star ∷ (cs ++ star ∷ slash ∷ []))
      ≡ ok (blank ∷ star ∷ (cs ++ star ∷ slash ∷ []))
unfolding remove_comments clean_chars
remove_comments-star cs h =
    ap (λ (m : Result (List ℕ)). (m >>= λ cs'. ok (star ∷ cs')) >>= λ cs'. ok (blank ∷ cs'))
      (outside_chars cs h)
