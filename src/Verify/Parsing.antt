-- ===== src/Verify/Parsing.antt =====
-- The signature file's format: what a signer writes is read back, and a placeholder key is refused.
use rdda.Common.{
  ℕ, Bool, true, false, [], ◌∷◌, ◌++◌, Str, ◌==◌, str_instance, nat_eq, ◌≡◌, ◌≢◌, refl, ap, ◌∙◌,
  arith, not_eq, all, not, str_eq, All, All-append, split_on, trim_right, trim_space, has_prefix,
  drop_prefix, is_space,
}
use rdda.Common.Results.{ok}
use rdda.Verify.{
  is_cr, untrusted_prefix, trusted_prefix, trim_crs, keep_line, drop_blank_tail, four_lines,
  parse_minisig,
}

-- A line that a signer writes: no line end in it, and no carriage return at its end.
abbrev pub IsLine : Str → Type 0
IsLine s = All (λ c. (c ≢ 10) × (c ≢ 13)) s

split_on-line : (s rest : Str) → IsLine s → split_on 10 (s ++ 10 ∷ rest) ≡ s ∷ split_on 10 rest
unfolding split_on
split_on-line [] rest h = refl
split_on-line (c ∷ s) rest (hc, h) = ground (arith, split_on-line s rest h)

trim_right-none : (p : ℕ → Bool) (s : Str) → All (λ c. p c ≡ false) s → trim_right p s ≡ s
unfolding trim_right
trim_right-none p [] h = refl
trim_right-none p (c ∷ []) (hc, h) = rw hc
trim_right-none p (c ∷ d ∷ s) (hc, h) = rw (trim_right-none p (d ∷ s) h)

IsLine-crs : (s : Str) → IsLine s → All (λ c. is_cr c ≡ false) s
IsLine-crs [] h = tt
IsLine-crs (c ∷ s) (hc, h) = (ground arith, IsLine-crs s h)

trim_cr-line : (s : Str) → IsLine s → trim_right is_cr s ≡ s
trim_cr-line s h = trim_right-none is_cr s (IsLine-crs s h)

-- A base64 line: not empty, and with no blank.
abbrev pub IsPayload : Str → Type 0
IsPayload s = (s ≢ []) × (all (λ c. not (is_space c)) s ≡ true)

no_blanks : (s : Str) → all (λ c. not (is_space c)) s ≡ true → All (λ c. is_space c ≡ false) s
no_blanks [] h = tt
no_blanks (c ∷ s) h = (ground arith, no_blanks s (ground arith))

trim_space-payload : (s : Str) → IsPayload s → trim_space s ≡ s
unfolding trim_space
trim_space-payload [] (h, none_blank) = refl
trim_space-payload (c ∷ s) (h, hs) =
    let none_blank = no_blanks (c ∷ s) hs in
    rw none_blank.0 (trim_right-none is_space (c ∷ s) none_blank)

not_line_end : (c : ℕ) → is_space c ≡ false → (c ≢ 10) × (c ≢ 13)
unfolding is_space
not_line_end c h = ground arith

payload-IsLine : (s : Str) → IsPayload s → IsLine s
payload-IsLine s (h, hs) = go s (no_blanks s hs)
  where
    go : (s : Str) → All (λ c. is_space c ≡ false) s → IsLine s
    go [] h = tt
    go (c ∷ s) (hc, h) = (not_line_end c hc, go s h)

-- The file that a signer writes.
unfoldable pub minisig_file : Str → Str → Str → Str → Str
minisig_file comment sig trusted global =
    untrusted_prefix
    ++ (comment
        ++ (10 ∷ (sig ++ (10 ∷ (trusted_prefix ++ (trusted ++ (10 ∷ (global ++ 10 ∷ []))))))))

lines_of_file :
    (comment sig trusted global : Str)
    → IsLine comment
    → IsLine sig
    → IsLine trusted
    → IsLine global
    → split_on 10 (minisig_file comment sig trusted global)
      ≡ (untrusted_prefix ++ comment) ∷ sig ∷ (trusted_prefix ++ trusted) ∷ global ∷ [] ∷ []
unfolding minisig_file
lines_of_file comment sig trusted global hc hs ht hg =
    let tail2 = trusted ++ (10 ∷ (global ++ 10 ∷ [])) in
    split_on-line (untrusted_prefix ++ comment) (sig ++ (10 ∷ (trusted_prefix ++ tail2)))
      (All-append _ untrusted_prefix comment (omega arith) hc)
    ∙ ap (λ ls. (untrusted_prefix ++ comment) ∷ ls)
        (split_on-line sig (trusted_prefix ++ tail2) hs
          ∙ ap (λ ls. sig ∷ ls)
              (split_on-line (trusted_prefix ++ trusted) (global ++ 10 ∷ [])
                  (All-append _ trusted_prefix trusted (omega arith) ht)
                ∙ ap (λ ls. (trusted_prefix ++ trusted) ∷ ls)
                    (split_on-line global [] hg ∙ (unfold split_on in refl))))

blank_line : (trim_space [] == []) ≡ true
unfolding trim_space str_eq
blank_line = refl

read_four :
    (comment sig trusted global : Str)
    → IsPayload sig
    → IsPayload global
    → four_lines (
        drop_blank_tail
          ((untrusted_prefix ++ comment) ∷ sig ∷ (trusted_prefix ++ trusted) ∷ global ∷ [] ∷ []))
      ≡ ok (record { sig_line = sig; trusted_comment = trusted; global_line = global })
unfolding four_lines drop_blank_tail keep_line has_prefix drop_prefix
read_four comment sig trusted global hs hg =
    rw
      (
        blank_line,
        trim_space-payload global hg,
        not_eq global [] hg.0,
        trim_space-payload sig hs,
        trim_space-payload global hg,
      )
      refl

-- Reading what a signer writes gives the signature line, the trusted comment and the global signature
-- line back, if no field holds a line end and the two signature lines are not empty and hold no blank.
pub parse_minisig-minisig_file :
    (comment sig trusted global : Str)
    → IsLine comment
    → IsPayload sig
    → IsLine trusted
    → IsPayload global
    → parse_minisig (minisig_file comment sig trusted global)
      ≡ ok (record { sig_line = sig; trusted_comment = trusted; global_line = global })
unfolding parse_minisig trim_crs drop_blank_tail keep_line four_lines trim_right
parse_minisig-minisig_file comment sig trusted global hc hs ht hg =
    rw
      (lines_of_file comment sig trusted global hc (payload-IsLine sig hs) ht
        (payload-IsLine global hg))
      (rw
        (
          trim_cr-line (untrusted_prefix ++ comment)
              (All-append _ untrusted_prefix comment (omega arith) hc),
          trim_cr-line sig (payload-IsLine sig hs),
          trim_cr-line (trusted_prefix ++ trusted)
              (All-append _ trusted_prefix trusted (omega arith) ht),
          trim_cr-line global (payload-IsLine global hg),
        )
        (read_four comment sig trusted global hs hg))
