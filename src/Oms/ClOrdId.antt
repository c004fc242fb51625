-- ===== src/Oms/ClOrdId.antt =====
-- src/xcommons/oms.rs, module `clordid`: the text of a client order id.
use rstrader.Base.{
  ◌≡◌, refl, ap, ◌∙◌, true, false, Option, none, some, [], ◌∷◌, ◌++◌, All, ◌==◌, if◌then◌else◌,
  arith,
}
use rstrader.Base.Options.{◌>>=◌}
use rstrader.Base.Int.{ℤ}
use rstrader.Base.Word.{IsI64}
use rstrader.Base.Bytes.{Bytes, ascii, is_blank, trim, trim_blanks}
use rstrader.Base.Decimal.{print_i64, read_i64, read-print_i64, print_i64-All}

pub format_xcl : ℤ → Bytes
format_xcl id = ascii "xcl_" ++ print_i64 id

strip_prefix : Bytes → Bytes → Option Bytes
strip_prefix [] text = some text
strip_prefix (x ∷ xs) [] = none
strip_prefix (x ∷ xs) (y ∷ ys) = let rest = strip_prefix xs ys in if x == y then rest else none

pub parse_xcl : Bytes → Option ℤ
unfolding strip_prefix
parse_xcl text = do rest ← strip_prefix (ascii "xcl_") (trim text); read_i64 rest

-- The text of an i64, with any blanks around it, parses to that number.
pub parse_xcl-format_xcl :
    (id : ℤ) (before after : Bytes)
    → IsI64 id
    → All (λ c. is_blank c ≡ true) before
    → All (λ c. is_blank c ≡ true) after
    → parse_xcl (before ++ (format_xcl id ++ after)) ≡ some id
unfolding parse_xcl format_xcl
parse_xcl-format_xcl id before after h b a =
    let unblank = print_i64-All (λ c. is_blank c ≡ false) id (λ d e. ground (arith, e)) refl in
    let trimmed =
      trim_blanks before after b'x' (ascii "cl_" ++ print_i64 id) b
        (refl, (refl, (refl, (refl, unblank)))) a in
    ap (λ s. strip_prefix (ascii "xcl_") s >>= read_i64) trimmed ∙ read-print_i64 id h
