-- ===== src/Bench/Size/Print.antt =====
-- A number of units, in either case, is read as the number of bytes.
use kv_rdma_poc.Shared.{
  ℕ, ◌^◌, ◌<◌, ◌≡◌, refl, ap, ◌∙◌, List, [], ◌∷◌, ◌++◌, none, some, map, arith, All, ok, ◌==◌, Bool,
  true, false,
}
use mathlib.Core.List.{append-nil}
use kv_rdma_poc.Shared.Word.{word, mul64}
use kv_rdma_poc.Shared.Text.{codes, decimal}
use kv_rdma_poc.Shared.Parse.{is_white, strip_suffix, to_upper}
use kv_rdma_poc.Shared.Parse.Digits.{IsDigit, decimal-IsDigit, parse_uint-decimal}
use kv_rdma_poc.Shared.Parse.Split.{All-append, All-map, trim-same}
use kv_rdma_poc.Bench.Size.{parse_upper, parse_size}

pub data SizeUnit : Type 0 where
  plain bytes kilobytes megabytes gigabytes : SizeUnit

abbrev pub factor : SizeUnit → ℕ
factor plain = 1
factor bytes = 1
factor kilobytes = 1024
factor megabytes = 1024 ^ 2
factor gigabytes = 1024 ^ 3

abbrev pub suffix : SizeUnit → List ℕ
suffix plain = []
suffix bytes = codes "B"
suffix kilobytes = codes "KB"
suffix megabytes = codes "MB"
suffix gigabytes = codes "GB"

abbrev lower : SizeUnit → List ℕ
lower plain = []
lower bytes = codes "b"
lower kilobytes = codes "kb"
lower megabytes = codes "mb"
lower gigabytes = codes "gb"

abbrev pub in_case : Bool → SizeUnit → List ℕ
in_case true u = suffix u
in_case false u = lower u

-- Digits do not begin a suffix that begins with a letter.
strip_suffix-some :
    (c : ℕ) (suf s t r : List ℕ)
    → b'9' < c
    → All IsDigit s
    → strip_suffix (c ∷ suf) t ≡ some r
    → strip_suffix (c ∷ suf) (s ++ t) ≡ some (s ++ r)
unfolding strip_suffix
strip_suffix-some c suf [] t r big d e = e
strip_suffix-some c suf (x ∷ s) t r big d e =
    rw (differs, strip_suffix-some c suf s t r big d.1 e) refl
  where
    differs : (c == x) ≡ false
    differs = ground (arith, d.0)

strip_suffix-none :
    (c : ℕ) (suf s t : List ℕ)
    → b'9' < c
    → All IsDigit s
    → strip_suffix (c ∷ suf) t ≡ none
    → strip_suffix (c ∷ suf) (s ++ t) ≡ none
unfolding strip_suffix
strip_suffix-none c suf [] t big d e = e
strip_suffix-none c suf (x ∷ s) t big d e = rw (differs, strip_suffix-none c suf s t big d.1 e) refl
  where
    differs : (c == x) ≡ false
    differs = ground (arith, d.0)

map-to_upper-digits : (s t : List ℕ) → All IsDigit s → map to_upper (s ++ t) ≡ s ++ map to_upper t
unfolding to_upper
map-to_upper-digits [] t d = refl
map-to_upper-digits (c ∷ s) t d = cc (same, map-to_upper-digits s t d.1)
  where
    same : to_upper c ≡ c
    same = ground (arith, d.0)

in_case-upper : (b : Bool) (u : SizeUnit) → map to_upper (in_case b u) ≡ suffix u
unfolding to_upper
in_case-upper true plain = refl
in_case-upper true bytes = refl
in_case-upper true kilobytes = refl
in_case-upper true megabytes = refl
in_case-upper true gigabytes = refl
in_case-upper false plain = refl
in_case-upper false bytes = refl
in_case-upper false kilobytes = refl
in_case-upper false megabytes = refl
in_case-upper false gigabytes = refl

in_case-visible : (b : Bool) (u : SizeUnit) → All (λ c. is_white c ≡ false) (in_case b u)
unfolding is_white
in_case-visible true plain = tt
in_case-visible true bytes = (refl, tt)
in_case-visible true kilobytes = (refl, (refl, tt))
in_case-visible true megabytes = (refl, (refl, tt))
in_case-visible true gigabytes = (refl, (refl, tt))
in_case-visible false plain = tt
in_case-visible false bytes = (refl, tt)
in_case-visible false kilobytes = (refl, (refl, tt))
in_case-visible false megabytes = (refl, (refl, tt))
in_case-visible false gigabytes = (refl, (refl, tt))

module _ (n : ℕ) (fits : n < word) where
  some_suffix :
      (c : ℕ) (suf : List ℕ)
      → b'9' < c
      → strip_suffix (c ∷ suf) (c ∷ suf) ≡ some []
      → strip_suffix (c ∷ suf) (decimal n ++ c ∷ suf) ≡ some (decimal n)
  some_suffix c suf big e =
      strip_suffix-some c suf (decimal n) (c ∷ suf) [] big (decimal-IsDigit n) e
      ∙ ap some (append-nil (decimal n))

  no_suffix :
      (c : ℕ) (suf t : List ℕ)
      → b'9' < c
      → strip_suffix (c ∷ suf) t ≡ none
      → strip_suffix (c ∷ suf) (decimal n ++ t) ≡ none
  no_suffix c suf t big e = strip_suffix-none c suf (decimal n) t big (decimal-IsDigit n) e

  parse_upper-suffix :
      (u : SizeUnit) → parse_upper (decimal n ++ suffix u) ≡ ok (mul64 n (factor u))
  unfolding strip_suffix parse_upper
  parse_upper-suffix kilobytes =
      rw (some_suffix b'K' (codes "B") (omega arith) refl, parse_upper)
        (rw (parse_uint-decimal word n fits) refl)
  parse_upper-suffix megabytes =
      rw (no_suffix b'K' (codes "B") (codes "MB") (omega arith) refl, parse_upper)
        (rw (some_suffix b'M' (codes "B") (omega arith) refl)
          (rw (parse_uint-decimal word n fits) refl))
  parse_upper-suffix gigabytes =
      rw (no_suffix b'K' (codes "B") (codes "GB") (omega arith) refl, parse_upper)
        (rw (no_suffix b'M' (codes "B") (codes "GB") (omega arith) refl) (
          rw (some_suffix b'G' (codes "B") (omega arith) refl)
            (rw (parse_uint-decimal word n fits) refl)))
  parse_upper-suffix bytes =
      rw (no_suffix b'K' (codes "B") (codes "B") (omega arith) refl, parse_upper)
        (rw (no_suffix b'M' (codes "B") (codes "B") (omega arith) refl) (
          rw (no_suffix b'G' (codes "B") (codes "B") (omega arith) refl) (
            rw (some_suffix b'B' [] (omega arith) refl)
              (rw (parse_uint-decimal word n fits) (ap ok (omega arith))))))
  parse_upper-suffix plain =
      rw (no_suffix b'K' (codes "B") [] (omega arith) refl, parse_upper)
        (rw (no_suffix b'M' (codes "B") [] (omega arith) refl) (
          rw (no_suffix b'G' (codes "B") [] (omega arith) refl) (
            rw (no_suffix b'B' [] [] (omega arith) refl)
              (rw (append-nil (decimal n), parse_uint-decimal word n fits) (ap ok (omega arith))))))

  -- A number below 2 ^ 64 in decimal digits, with no suffix or one of the suffixes B, KB, MB and
  -- GB in upper or lower case, is parsed into its product with the unit, modulo 2 ^ 64.
  pub parse_size-print :
      (upper : Bool) (u : SizeUnit)
      → parse_size (decimal n ++ in_case upper u) ≡ ok (mul64 n (factor u))
  unfolding parse_size
  parse_size-print upper u =
      rw
        (
          trim-same (decimal n ++ in_case upper u) visible,
          map-to_upper-digits (decimal n) (in_case upper u) (decimal-IsDigit n),
          in_case-upper upper u,
        )
        (parse_upper-suffix u)
    where
      visible : All (λ c. is_white c ≡ false) (decimal n ++ in_case upper u)
      visible =
          All-append (λ c. is_white c ≡ false) (decimal n) (in_case upper u)
            (All-map IsDigit (λ c. is_white c ≡ false) (decimal n)
              (λ c d. unfold is_white in ground arith) (decimal-IsDigit n))
            (in_case-visible upper u)
