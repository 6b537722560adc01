-- ===== src/Base/Ints.antt =====
-- Signed integers over the native numbers, instants and durations.
use tezcatl.Base.{ℕ, suc, false, ◌+◌, ◌-◌, ◌≤◌, Bool, ltb, leb, if◌then◌else◌}

-- `negsuc n` is -(n + 1).
pub data ℤ : Type 0 where
  pos : ℕ → ℤ
  negsuc : ℕ → ℤ

abbrev pub pos_part : ℤ → ℕ
pos_part (pos n) = n
pos_part (negsuc n) = 0

abbrev pub neg_part : ℤ → ℕ
neg_part (pos n) = 0
neg_part (negsuc n) = suc n

-- a - b, as an integer.
abbrev pub sub_ℕ : ℕ → ℕ → ℤ
sub_ℕ a b = if leb b a then pos (a - b) else negsuc (b - a - 1)

infix 50 ◌≤ℤ◌
abbrev pub ◌≤ℤ◌ : ℤ → ℤ → Type 0
a ≤ℤ b = pos_part a + neg_part b ≤ pos_part b + neg_part a

abbrev pub ltb_ℤ : ℤ → ℤ → Bool
ltb_ℤ a b = ltb (pos_part a + neg_part b) (pos_part b + neg_part a)

abbrev pub leb_ℤ : ℤ → ℤ → Bool
leb_ℤ a b = leb (pos_part a + neg_part b) (pos_part b + neg_part a)

-- 2 * a
abbrev pub double : ℤ → ℤ
double (pos n) = pos (n + n)
double (negsuc n) = negsuc (n + n + 1)

-- -a
abbrev pub neg_ℤ : ℤ → ℤ
neg_ℤ a = sub_ℕ (neg_part a) (pos_part a)

-- `time.Time`: nanoseconds since Go's zero time. `time.Duration`: a signed count of nanoseconds.
abbrev pub Time : Type 0
Time = ℕ

abbrev pub Duration : Type 0
Duration = ℤ

-- `t.Sub(u)`
abbrev pub sub : Time → Time → Duration
sub t u = sub_ℕ t u

-- `t.Before(u)`; `t.After(u)` is `u` before `t`
abbrev pub before : Time → Time → Bool
before t u = ltb t u

abbrev pub second : ℕ
second = 1_000_000_000

abbrev pub minute : ℕ
minute = 60_000_000_000

abbrev pub hour : ℕ
hour = 3_600_000_000_000

abbrev pub is_zero : ℤ → Bool
is_zero a = if leb_ℤ a (pos 0) then leb_ℤ (pos 0) a else false

-- `t.Add(d)`, for a sum that is not before the zero time
abbrev pub add_time : Time → Duration → Time
add_time t d = t + pos_part d - neg_part d
