-- ===== src/Base/Words.antt =====
-- Bytes and little-endian words. The targets are little-endian, so `readLE` and `appendLE`, which
-- copy memory, read and write the low byte first.
use Prim.Native.Nat.{ℕ, zero, suc, ◌+◌, ◌*◌, ◌/◌, ◌%◌, ◌^◌, ◌≤◌, ◌<◌}
use mathlib.Core.Path.{◌≡◌, refl, sym, ap, ◌∙◌}
use mathlib.Core.List.{List, [], ◌∷◌, ◌++◌, append_assoc}
use native.Mathlib.Nat.{pow-suc}
use native.Mathlib.Omega.{arith}
use gnsshat.Base.Lists.{
  length, length-append, All, take, drop, get_elem?, get_elem?-some, get_elem?-append_ge,
  get_elem?-append_lt, length-take_le, take-append-drop, drop-length_append, take-length_append,
}
use mathlib.Core.Bool.{Bool, true, false, ◌&&◌}
use gnsshat.Base.Tests.{◌==◌, ltb, le→ltb, if◌then◌else◌, ==-refl, ==_iff, and_true}
use gnsshat.Base.Outcomes.{Result, ok, err, out_of_bounds, ◌>>=◌, checked, read_at}

abbrev pub Bytes : Type 0
Bytes = List ℕ

abbrev pub IsByte : ℕ → Type 0
IsByte b = b < 256

abbrev pub AreBytes : Bytes → Type 0
AreBytes = All IsByte

-- `readLE<T>(data, offset)` for a `T` of `size` bytes.
unfoldable pub read_le : ℕ → Bytes → ℕ → Result ℕ
read_le zero frame offset = ok 0
read_le (suc size) frame offset = do
  low ← read_at frame offset
  high ← read_le size frame (offset + 1)
  ok (low + 256 * high)

-- `serializeInt2LittleEndian` and `appendLE` for a value of `size` bytes.
unfoldable pub to_le : ℕ → ℕ → Bytes
to_le zero value = []
to_le (suc size) value = (value % 256) ∷ to_le size (value / 256)

pub length-to_le : (size value : ℕ) → length (to_le size value) ≡ size
unfolding to_le
length-to_le zero value = refl
length-to_le (suc size) value = omega (arith, length-to_le size (value / 256))

pub to_le-AreBytes : (size value : ℕ) → AreBytes (to_le size value)
unfolding to_le
to_le-AreBytes zero value = tt
to_le-AreBytes (suc size) value = (omega arith, to_le-AreBytes size (value / 256))

pub read_at_ok : (frame : Bytes) (i : ℕ) → i < length frame → (b : ℕ) × (read_at frame i ≡ ok b)
read_at_ok frame i h = let (b, e) = get_elem?-some frame i h in (b, ap checked e)

pub read_at-append :
    (frame more : Bytes) (i : ℕ) → i < length frame → read_at (frame ++ more) i ≡ read_at frame i
read_at-append frame more i h = ap checked (get_elem?-append_lt frame more i h)

-- A read inside the frame succeeds.
pub read_le_ok :
    (size : ℕ) (frame : Bytes) (offset : ℕ)
    → offset + size ≤ length frame
    → (v : ℕ) × (read_le size frame offset ≡ ok v)
unfolding read_le
read_le_ok zero frame offset h = (0, refl)
read_le_ok (suc size) frame offset h =
    let (low, e) = read_at_ok frame offset (omega arith) in
    let (high, f) = read_le_ok size frame (offset + 1) (omega arith) in
    (low + 256 * high, rw (e, f))

pub read_le-append :
    (size : ℕ) (frame more : Bytes) (offset : ℕ)
    → offset + size ≤ length frame
    → read_le size (frame ++ more) offset ≡ read_le size frame offset
unfolding read_le
read_le-append zero frame more offset h = refl
read_le-append (suc size) frame more offset h = rw (
  read_at-append frame more offset (omega arith),
  read_le-append size frame more (offset + 1) (omega arith),
)

pub read_le-take :
    (size n : ℕ) (frame : Bytes) (offset : ℕ)
    → offset + size ≤ n
    → n ≤ length frame
    → read_le size (take n frame) offset ≡ read_le size frame offset
read_le-take size n frame offset h k =
    sym (
      read_le-append size (take n frame) (drop n frame) offset
        (omega (arith, length-take_le n frame k)))
    ∙ ap (λ bs. read_le size bs offset) (take-append-drop n frame)

pub read_first :
    {frame : Bytes} (before : Bytes) (b : ℕ) (after : Bytes)
    → frame ≡ before ++ b ∷ after
    → read_at frame (length before) ≡ ok b
read_first before b after e = rw e (
    ap checked (
      get_elem?-append_ge before (b ∷ after) (length before) (omega arith)
      ∙ ap (get_elem? (b ∷ after)) {y = 0} (omega arith)))

-- A word that `to_le` wrote is read back at its place.
pub read_le-to_le :
    (size v : ℕ) (frame before after : Bytes)
    → v < 256 ^ size
    → frame ≡ before ++ (to_le size v ++ after)
    → read_le size frame (length before) ≡ ok v
unfolding read_le to_le
read_le-to_le zero v frame before after h e = ap ok (omega arith)
read_le-to_le (suc size) v frame before after h e =
    let read_high : read_le size frame (length before + 1) ≡ ok (v / 256) =
      ap (read_le size frame) (sym (length-append before ((v % 256) ∷ [])))
      ∙ read_le-to_le size (v / 256) frame (before ++ (v % 256) ∷ []) after
          (omega (arith, pow-suc 256 size)) higher in
    rw (read_first before (v % 256) (to_le size (v / 256) ++ after) e, read_high)
      (ap ok (omega arith))
  where
    higher : frame ≡ (before ++ (v % 256) ∷ []) ++ (to_le size (v / 256) ++ after)
    higher = e ∙ sym (append_assoc before ((v % 256) ∷ []) (to_le size (v / 256) ++ after))

-- The bytes `[frame.begin() + offset, frame.begin() + offset + size)` of a range inside the frame.
abbrev pub slice : Bytes → ℕ → ℕ → Bytes
slice frame offset size = take size (drop offset frame)

pub slice_lem :
    (before part after : Bytes) {frame : Bytes}
    → frame ≡ before ++ (part ++ after)
    → slice frame (length before) (length part) ≡ part
slice_lem before part after e =
    rw (e, drop-length_append before (part ++ after)) (take-length_append part after)

-- The vector copied from the range of this offset and size, undefined where it ends behind the frame.
unfoldable pub read_range : Bytes → ℕ → ℕ → Result Bytes
read_range frame offset size =
    if ltb (length frame) (offset + size) then err out_of_bounds else ok (slice frame offset size)

pub read_range_ok :
    (frame : Bytes) (offset size : ℕ)
    → offset + size ≤ length frame
    → read_range frame offset size ≡ ok (slice frame offset size)
unfolding read_range
read_range_ok frame offset size h = rw (le→ltb (length frame) (offset + size) h) refl

pub read_range_lem :
    (before part after : Bytes) {frame : Bytes}
    → frame ≡ before ++ (part ++ after)
    → read_range frame (length before) (length part) ≡ ok part
read_range_lem before part after {frame} e =
    read_range_ok frame (length before) (length part)
      (omega (arith, ap length e, length-append before (part ++ after), length-append part after))
    ∙ ap ok (slice_lem before part after e)

pub to_le_two : (v : ℕ) → to_le 2 v ≡ (v % 256) ∷ (v / 256 % 256) ∷ []
unfolding to_le
to_le_two v = refl

-- `==` on vectors of bytes.
abbrev pub same_bytes : Bytes → Bytes → Bool
same_bytes [] [] = true
same_bytes (x ∷ xs) (y ∷ ys) = (x == y) && same_bytes xs ys
same_bytes _ _ = false

pub same_bytes_refl : (bytes : Bytes) → same_bytes bytes bytes ≡ true
same_bytes_refl [] = refl
same_bytes_refl (b ∷ bytes) = rw (==-refl b) (same_bytes_refl bytes)

pub same_bytes_eq : (xs ys : Bytes) → same_bytes xs ys ≡ true → xs ≡ ys
same_bytes_eq [] [] e = refl
same_bytes_eq [] (y ∷ ys) e = absurd cc
same_bytes_eq (x ∷ xs) [] e = absurd cc
same_bytes_eq (x ∷ xs) (y ∷ ys) e =
    let (here, later) = and_true (x == y) (same_bytes xs ys) e in
    let same = (==_iff x y).0 here in let rest = same_bytes_eq xs ys later in cc
