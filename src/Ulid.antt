-- ===== src/Ulid.antt =====
-- src/lib/ulid.c: identifiers of 48 bits of time and 80 random bits. The clock and /dev/urandom are
-- arguments of `new`; the call holds its lock around the state.
pub mod Text
mod Tests
use packetsonde.Prelude.{
  ℕ, zero, suc, ◌+◌, ◌*◌, ◌/◌, ◌%◌, ◌^◌, Bool, true, false, not, Option, none, some, List, [], ◌∷◌,
  ◌++◌, ltb, ◌==◌, if◌then◌else◌, get_or, drop,
}

-- `CROCKFORD`
abbrev pub alphabet : List ℕ
alphabet =
    48 ∷ 49 ∷ 50 ∷ 51 ∷ 52 ∷ 53 ∷ 54 ∷ 55 ∷ 56 ∷ 57 ∷ 65 ∷ 66 ∷ 67 ∷ 68 ∷ 69 ∷ 70 ∷ 71 ∷ 72 ∷ 74
    ∷ 75 ∷ 77 ∷ 78 ∷ 80 ∷ 81 ∷ 82 ∷ 83 ∷ 84 ∷ 86 ∷ 87 ∷ 88 ∷ 89 ∷ 90 ∷ []

-- `g_last_ms` and `g_last_rand`
pub record UlidState : Type 0 where
  pub last_ms : ℕ
  pub last_rand : List ℕ

-- `inc80` from the last byte on; the flag says that every byte from here on wrapped.
unfoldable pub inc : List ℕ → Bool × List ℕ
inc [] = (true, [])
inc (b ∷ r) =
    let (wrapped, r') = inc r in
    if wrapped then ((b + 1) % 256 == 0, (b + 1) % 256 ∷ r') else (false, b ∷ r')

-- The loop of the time: the digit of the last place, and the others before it.
unfoldable pub time_text : ℕ → ℕ → List ℕ
time_text zero t = []
time_text (suc places) t = time_text places (t / 32) ++ get_or alphabet (t % 32) 0 ∷ []

-- The loop of the random part, on the halves of the number. The carry takes bits that are free.
unfoldable pub random_text : ℕ → ℕ → ℕ → List ℕ
random_text zero lo hi = []
random_text (suc places) lo hi =
    random_text places (lo / 32 + hi % 32 * 2 ^ 59) (hi / 32) ++ get_or alphabet (lo % 32) 0 ∷ []

-- `(lo << 8) | r[i]` over the bytes, in 64 bits.
unfoldable pub big_endian : ℕ → List ℕ → ℕ
big_endian acc [] = acc
big_endian acc (b ∷ r) = big_endian (acc * 256 % 2 ^ 64 + b) r

unfoldable pub text : ℕ → List ℕ → List ℕ
unfolding time_text random_text big_endian
text ms r =
    time_text 10 (ms % 2 ^ 48)
    ++ random_text 16 (big_endian 0 (drop 2 r)) (get_or r 0 0 * 256 + get_or r 1 0)

-- What the call takes for its random bytes: the last ones plus one within a millisecond, else
-- fresh ones, which may fail.
unfoldable pub bytes_for : UlidState → ℕ → Option (List ℕ) → Option (List ℕ)
unfolding inc
bytes_for s ms random = if ms == s.last_ms then some (inc s.last_rand).1 else random

abbrev pub finish : UlidState → ℕ → Option (List ℕ) → Option (List ℕ) × UlidState
unfolding text
finish s ms none = (none, s)
finish s ms (some r) = (some (text ms r), record { last_ms = ms; last_rand = r })

-- `bufsz` bytes of output; `none` is -1.
unfoldable pub new : UlidState → ℕ → Option ℕ → Option (List ℕ) → Option (List ℕ) × UlidState
unfolding bytes_for text
new s bufsz none random = (none, s)
new s bufsz (some ms) random =
    if ltb bufsz 27 then (none, s) else finish s ms (bytes_for s ms random)
