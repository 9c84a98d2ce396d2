-- ===== src/DestMatch/Tests.antt =====
-- Runs of src/lib/dest_match.c, with readers of numbers in place of libc's.
use packetsonde.Prelude.{
  ℕ, ◌-◌, ◌*◌, ◌/◌, ◌%◌, ◌^◌, ◌<◌, ◌≡◌, ◌∙◌, refl, sym, ap, true, false, Option, none, some, List,
  [], ◌∷◌, ◌++◌, append-nil, ◌==◌, arith, ascii,
}
use packetsonde.Prelude.Int.{ℤ, pos}
use packetsonde.Json.Writer.{decimal}
use packetsonde.Json.Numbers.{read_digits, read_digits-digits}
use packetsonde.Baseline.{BaselineSet, add, covered_verdict}
use packetsonde.Cuts.{split_first, split_first-append}
use packetsonde.DestMatch.{dotted, dest_match, generalize, decide_dest}
use packetsonde.DestMatch.Approve.{decide_dest-generalize}
use packetsonde.DestMatch.Forms.{generalize_lem, generalize-host_colon}
use packetsonde.DestMatch.Cidr.{IsScan, IsAtoi, contains-decimal, generalize-cidr}

abbrev read : List ℕ → ℕ
read s = read_digits 0 s

read-decimal : (n : ℕ) → n < 256 → read (decimal (pos n)) ≡ n
unfolding decimal read_digits
read-decimal n h =
    ap (read_digits 0) (sym (append-nil (decimal (pos n))))
    ∙ read_digits-digits 19 n [] (omega arith) (omega arith)

abbrev atoi : List ℕ → ℤ
atoi s = pos (read s)

atoi-IsAtoi : IsAtoi atoi
atoi-IsAtoi n h = ap pos (read-decimal n (omega arith))

-- Numbers between dots.
abbrev last_part : ℕ → ℕ → Option (List ℕ × List ℕ) → Option (ℕ × ℕ × ℕ × ℕ)
last_part a b none = none
last_part a b (some (c, d)) = some (a, b, read c, read d)

abbrev third_part : ℕ → Option (List ℕ × List ℕ) → Option (ℕ × ℕ × ℕ × ℕ)
third_part a none = none
third_part a (some (b, s)) = last_part a (read b) (split_first 46 s)

abbrev second_part : Option (List ℕ × List ℕ) → Option (ℕ × ℕ × ℕ × ℕ)
second_part none = none
second_part (some (a, s)) = third_part (read a) (split_first 46 s)

abbrev scan : List ℕ → Option (ℕ × ℕ × ℕ × ℕ)
scan s = second_part (split_first 46 s)

part :
    (n : ℕ) (s : List ℕ) → split_first 46 (decimal (pos n) ++ (46 ∷ s)) ≡ some (decimal (pos n), s)
part n s = split_first-append 46 (decimal (pos n)) s (contains-decimal 46 n (λ d h. ground arith))

scan-IsScan : IsScan scan
scan-IsScan u h =
    simp
      (
        part,
        read-decimal (u / 16777216 % 256) (omega arith),
        read-decimal (u / 65536 % 256) (omega arith),
        read-decimal (u / 256 % 256) (omega arith),
        read-decimal (u % 256) (omega arith),
      )
      refl

-- 192.0.2.7 and 192.0.2.200 are in one network of 24 bits.
generalize-cidr_example :
    let form = ascii "cidr/" ++ decimal (pos 24) in
    let p = 2 ^ (32 - 24) in
    let block = dotted (3221225991 / p * p) ++ (47 ∷ decimal (pos 24)) in
    (generalize scan atoi (some (dotted 3221225991 ++ (58 ∷ ascii "443"))) (some form) 64
      ≡ some block)
    × (dest_match scan atoi (some block) (some (dotted 3221226184 ++ (58 ∷ ascii "80")))
        ≡ (3221225991 / p == 3221226184 / p))
generalize-cidr_example =
    generalize-cidr scan atoi scan-IsScan atoi-IsAtoi 3221225991 3221226184 24 64 (ascii "443")
      (ascii "80") (omega arith) (omega arith) (omega arith) (omega arith) (omega arith) refl
      (omega arith) refl

same_block : ◌==◌ (3221225991 / 2 ^ (32 - 24)) (3221226184 / 2 ^ (32 - 24)) ≡ true
same_block = refl

abbrev web : List ℕ
web = ascii "10.0.0.9:443"

abbrev ssh : List ℕ
ssh = ascii "10.0.0.9:22"

-- [::1]:443 as a host.
generalize-host_colon_example :
    (generalize scan atoi (some (ascii "[::1]:443")) (some (ascii "host")) 64
      ≡ some (ascii "[::1]"))
    × (dest_match scan atoi (some (ascii "[::1]")) (some (ascii "[::1]:443")) ≡ false)
generalize-host_colon_example =
    generalize-host_colon scan atoi (ascii "[:") (ascii "1]") (ascii "443") 64
      (record { ip_in = omega arith; port_in = omega arith; no_colon = refl }) refl refl
      (omega arith) refl

abbrev approved : BaselineSet
approved = record { exe = ascii "/bin/a"; path = [] }

decide_dest-generalize_example :
    decide_dest scan atoi (add approved (some (ascii "10.0.0.9"))).1 approved (some ssh)
    ≡ covered_verdict
unfolding add
decide_dest-generalize_example =
    decide_dest-generalize scan atoi 49 (ascii "0.0.0.9") (ascii "443") (ascii "22") 64 approved
      approved (ascii "10.0.0.9")
      (record { ip_in = omega arith; port_in = omega arith; no_colon = refl })
      (record { ip_in = omega arith; port_in = omega arith; no_colon = refl }) refl refl refl
      (omega arith)
      (generalize_lem scan atoi (ascii "10.0.0.9") (ascii "443") (ascii "host") (ascii "10.0.0.9")
        64 (record { ip_in = omega arith; port_in = omega arith; no_colon = refl }) refl
        (omega arith))
      (λ n. cc)
