-- ===== src/Mailbox/Bytes.antt =====
-- Bytes written into the records of src/mailbox.c and read back.
use deepshield.Prelude.{
  ℕ, zero, suc, ◌+◌, ◌-◌, ◌≤◌, ◌≡◌, ◌∙◌, ap, refl, List, [], ◌∷◌, ◌++◌, length, take, drop,
  length-append, length-take, length-drop, drop-append_right, drop-add, arith,
}
use deepshield.Mailbox.{put_bytes}

pub length-put_bytes :
    (xs : List ℕ) (o : ℕ) (bs : List ℕ)
    → o + length bs ≤ length xs
    → length (put_bytes xs o bs) ≡ length xs
length-put_bytes xs o bs h =
    rw (length-append, length-take, length-append, length-drop) (omega arith)

-- From the offset of the write on.
pub drop-put_bytes_at :
    (xs : List ℕ) (o : ℕ) (bs : List ℕ)
    → o + length bs ≤ length xs
    → drop o (put_bytes xs o bs) ≡ bs ++ drop (o + length bs) xs
drop-put_bytes_at xs o bs h =
    drop-append_right o 0 (take o xs) (bs ++ drop (o + length bs) xs) (rw length-take (omega arith))

take-drop-append :
    (xs ys : List ℕ) (p o w : ℕ)
    → o + w ≤ p
    → p ≤ length xs
    → take w (drop o (take p xs ++ ys)) ≡ take w (drop o xs)
take-drop-append xs ys p zero zero h k = refl
take-drop-append xs ys zero zero (suc w) h k = absurd (omega arith)
take-drop-append [] ys (suc p) zero (suc w) h k = absurd (omega arith)
take-drop-append (x ∷ xs) ys (suc p) zero (suc w) h k =
    ap (λ (t : List ℕ). x ∷ t) (take-drop-append xs ys p zero w (omega arith) (omega arith))
take-drop-append xs ys zero (suc o) w h k = absurd (omega arith)
take-drop-append [] ys (suc p) (suc o) w h k = absurd (omega arith)
take-drop-append (x ∷ xs) ys (suc p) (suc o) w h k =
    take-drop-append xs ys p o w (omega arith) (omega arith)

-- Bytes before the write.
pub take-drop-put_bytes_before :
    (xs : List ℕ) (p o w : ℕ) (bs : List ℕ)
    → o + w ≤ p
    → p ≤ length xs
    → take w (drop o (put_bytes xs p bs)) ≡ take w (drop o xs)
take-drop-put_bytes_before xs p o w bs h k =
    take-drop-append xs (bs ++ drop (p + length bs) xs) p o w h k

-- Bytes behind the write.
pub drop-put_bytes_behind :
    (xs : List ℕ) (p q : ℕ) (bs : List ℕ)
    → p + length bs ≤ q
    → q ≤ length xs
    → drop q (put_bytes xs p bs) ≡ drop q xs
drop-put_bytes_behind xs p q bs h k =
    let d = drop (p + length bs) xs in
    drop-append_right q (q - p) (take p xs) (bs ++ d) (rw length-take (omega arith))
    ∙ drop-append_right (q - p) (q - p - length bs) bs d (omega arith)
    ∙ drop-add (p + length bs) (q - p - length bs) q xs (omega arith)
