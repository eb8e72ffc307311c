-- ===== src/Cabac/Value.antt =====
-- The number that the engine of cabac.c stands for: its bytes, the outstanding ones and the
-- register. Writing a byte out does not change it.
use native.Mathlib.Decide.{dec_le}
use bc250_vulkan_encode_stop.Base.{
  ℕ, zero, suc, ◌+◌, ◌*◌, ◌/◌, ◌%◌, ◌≤◌, ◌<◌, ◌≡◌, ◌≢◌, refl, sym, ◌∙◌, ap, arith, false, List, [],
  ◌∷◌, ◌++◌, length, length-append, length-replicate, replicate, ◌==◌, if_split,
}
use bc250_vulkan_encode_stop.Cabac.{OutBuffer, store, store_times, add_to_last, put_bytes}

-- A string of bytes, the last one first, as a number.
unfoldable pub base256 : List ℕ → ℕ
base256 [] = 0
base256 (b ∷ bs) = base256 bs * 256 + b

unfoldable pub committed : ℕ → List ℕ → ℕ
unfolding base256
committed outstanding written = base256 (replicate outstanding 255 ++ written)

pub ones-committed : (k : ℕ) (bs : List ℕ) → committed (suc k) bs ≡ committed k bs * 256 + 255
unfolding committed base256
ones-committed k bs = refl

unfoldable pub Bytes : List ℕ → Type 0
Bytes [] = Unit
Bytes (b ∷ bs) = (b < 256) × Bytes bs

-- Bytes of which the last one, which comes first, can be one higher.
unfoldable pub LastBelow : List ℕ → Type 0
unfolding Bytes
LastBelow [] = Unit
LastBelow (b ∷ bs) = (b ≤ 254) × Bytes bs

pub Bytes-replicate : (n b : ℕ) (bs : List ℕ) → b < 256 → Bytes bs → Bytes (replicate n b ++ bs)
unfolding Bytes
Bytes-replicate zero b bs h all = all
Bytes-replicate (suc n) b bs h all = (h, Bytes-replicate n b bs h all)

pub store-written :
    (byte : ℕ) (b : OutBuffer)
    → (store byte b).overflow ≡ false
    → ((store byte b).written ≡ byte ∷ b.written)
      × (b.overflow ≡ false)
      × ((store byte b).before ≡ b.before)
unfolding store
store-written byte b =
    if_split
      (λ (c : OutBuffer).
        c.overflow ≡ false
        → (c.written ≡ byte ∷ b.written) × (b.overflow ≡ false) × (c.before ≡ b.before))
      (b.room == 0) (λ full ok. grind arith) (λ more ok. (refl, ok, refl))

pub replicate-last {ℓ} :
    {A : Type ℓ} (n : ℕ) (a : A) (as1 : List A)
    → replicate n a ++ (a ∷ as1) ≡ a ∷ (replicate n a ++ as1)
replicate-last zero a as1 = refl
replicate-last (suc n) a as1 = ap (λ l. a ∷ l) (replicate-last n a as1)

pub store_times-written :
    (n byte : ℕ) (b : OutBuffer)
    → (store_times n byte b).overflow ≡ false
    → ((store_times n byte b).written ≡ replicate n byte ++ b.written)
      × (b.overflow ≡ false)
      × ((store_times n byte b).before ≡ b.before)
unfolding store_times
store_times-written zero byte b ok = (refl, ok, refl)
store_times-written (suc n) byte b ok =
    let (times, ok_times, kept) = store_times-written n byte (store byte b) ok in
    let (one, ok_one, kept_one) = store-written byte b ok_times in
    (
      times ∙ ap (λ l. replicate n byte ++ l) one ∙ replicate-last n byte b.written,
      ok_one,
      kept ∙ kept_one,
    )

-- A carry into the outstanding bytes makes them 0 and the last written byte one higher.
carry-ripples :
    (k b : ℕ) (bs : List ℕ)
    → base256 (replicate k 0 ++ (suc b ∷ bs)) ≡ base256 (replicate k 255 ++ (b ∷ bs)) + 1
unfolding base256
carry-ripples zero b bs = omega arith
carry-ripples (suc k) b bs = omega (arith, carry-ripples k b bs)

-- The outstanding bytes and the last written one take the carry of a new byte.
unfoldable pub Absorbs : ℕ → ℕ → OutBuffer → OutBuffer → Type 0
unfolding committed
Absorbs k out b after =
    (base256 after.written ≡ committed k b.written * 256 + out)
    × LastBelow after.written
    × (b.overflow ≡ false)
    × (after.before ≡ b.before)
    × (after.written ≢ [])
    × (length after.written ≡ suc (k + length b.written))

small_out : (out : ℕ) → out < 256 → (out / 256 ≡ 0) × (out % 256 ≡ out)
small_out out h = (omega arith, omega arith)

carrying_out : (out : ℕ) → 256 ≤ out → out ≤ 383 → (out / 256 ≡ 1) × (out % 256 + 256 ≡ out)
carrying_out out h k = (omega arith, omega arith)

same_byte : (b : ℕ) → b ≤ 254 → (b + 0) % 256 ≡ b
same_byte b h = omega arith

next_byte : (b : ℕ) → b ≤ 254 → (b + 1) % 256 ≡ suc b
next_byte b h = omega arith

cons_ne_nil : (b : ℕ) (bs cs : List ℕ) → cs ≡ b ∷ bs → cs ≢ []
cons_ne_nil b bs cs e h = grind arith

add_to_last-zero :
    (ws : List ℕ) (b : OutBuffer)
    → b.before < 256
    → LastBelow ws
    → b.written ≡ ws
    → ((add_to_last 0 ws b).written ≡ ws) × ((add_to_last 0 ws b).before ≡ b.before)
unfolding add_to_last LastBelow
add_to_last-zero [] b h last e = (e, omega arith)
add_to_last-zero (w ∷ ws) b h last e = (ap (λ x. x ∷ ws) (same_byte w last.0), refl)

add_to_last-one :
    (k : ℕ) (ws : List ℕ) (b : OutBuffer)
    → LastBelow ws
    → ws ≢ []
    → (base256 (replicate k 0 ++ (add_to_last 1 ws b).written) ≡ committed k ws + 1)
      × ((add_to_last 1 ws b).before ≡ b.before)
unfolding add_to_last LastBelow committed
add_to_last-one k [] b last some_byte = absurd (some_byte refl)
add_to_last-one k (w ∷ ws) b last some_byte = (rw (next_byte w last.0) (carry-ripples k w ws), refl)

add_to_last-overflow :
    (carry : ℕ) (ws : List ℕ) (b : OutBuffer) → (add_to_last carry ws b).overflow ≡ b.overflow
unfolding add_to_last
add_to_last-overflow carry [] b = refl
add_to_last-overflow carry (w ∷ ws) b = refl

add_to_last-Bytes :
    (carry : ℕ) (ws : List ℕ) (b : OutBuffer)
    → LastBelow ws
    → b.written ≡ ws
    → Bytes (add_to_last carry ws b).written
unfolding add_to_last LastBelow Bytes
add_to_last-Bytes carry [] b last e = rw e tt
add_to_last-Bytes carry (w ∷ ws) b last e = (omega arith, last.1)

length-add_to_last :
    (carry : ℕ) (ws : List ℕ) (b : OutBuffer)
    → b.written ≡ ws
    → length (add_to_last carry ws b).written ≡ length ws
unfolding add_to_last
length-add_to_last carry [] b e = ap length e
length-add_to_last carry (w ∷ ws) b e = refl

-- With a carry of at most 1 the bytes take the value of the whole sum.
add_to_last-value :
    (k out : ℕ) (b : OutBuffer)
    → b.before < 256
    → LastBelow b.written
    → out ≤ 383
    → (256 ≤ out → b.written ≢ [])
    → (base256 (
              replicate k ((out / 256 + 255) % 256)
              ++ (add_to_last (out / 256) b.written b).written)
            * 256
          + out % 256
        ≡ committed k b.written * 256 + out)
      × ((add_to_last (out / 256) b.written b).before ≡ b.before)
unfolding committed
add_to_last-value k out b hb last h some_byte = elim (dec_le 256 out) [
  | yes big ↦
      let (carry, rest) = carrying_out out big h in
      let (sum, kept) = add_to_last-one k b.written b last (some_byte big) in
      rw carry (omega (arith, sum, rest), kept)
  | no small ↦
      let (carry, rest) = small_out out (omega (arith, small)) in
      let (same, kept) = add_to_last-zero b.written b hb last refl in
      rw (carry, same) (omega (arith, rest), kept)
]

-- The last byte of what a carry of at most 1 leaves, and that carry.
pub put_bytes-Absorbs :
    (k out : ℕ) (b : OutBuffer)
    → b.before < 256
    → LastBelow b.written
    → out ≤ 383
    → out % 256 ≢ 255
    → (256 ≤ out → b.written ≢ [])
    → (put_bytes k out b).overflow ≡ false
    → Absorbs k out b (put_bytes k out b)
unfolding put_bytes Absorbs base256 LastBelow
put_bytes-Absorbs k out b hb last h not_ones some_byte ok =
    let fill = (out / 256 + 255) % 256 in
    let carried = add_to_last (out / 256) b.written b in
    let (one, ok_one, kept_one) = store-written (out % 256) (store_times k fill carried) ok in
    let (times, ok_times, kept_times) = store_times-written k fill carried ok_one in
    let unflagged = sym (add_to_last-overflow (out / 256) b.written b) ∙ ok_times in
    let (sum, kept) = add_to_last-value k out b hb last h some_byte in
    (
      rw (one, times) sum,
      rw (one, times)
          (
            omega (arith, not_ones),
            Bytes-replicate k fill carried.written (omega arith)
                (add_to_last-Bytes (out / 256) b.written b last refl),
          ),
      unflagged,
      kept_one ∙ kept_times ∙ kept,
      cons_ne_nil (out % 256) (store_times k fill carried).written (put_bytes k out b).written one,
      ap length (one ∙ ap (λ l. out % 256 ∷ l) times)
          ∙ ap suc (
              length-append (replicate k fill) carried.written
              ∙ omega (
                arith,
                length-replicate k fill,
                length-add_to_last (out / 256) b.written b refl,
              )),
    )

pub put_bytes-unflagged :
    (k out : ℕ) (b : OutBuffer) → (put_bytes k out b).overflow ≡ false → b.overflow ≡ false
unfolding put_bytes
put_bytes-unflagged k out b ok =
    let fill = (out / 256 + 255) % 256 in
    let carried = add_to_last (out / 256) b.written b in
    let (one, ok_one, kept_one) = store-written (out % 256) (store_times k fill carried) ok in
    let (times, ok_times, kept_times) = store_times-written k fill carried ok_one in
    sym (add_to_last-overflow (out / 256) b.written b) ∙ ok_times
