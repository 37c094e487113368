-- ===== src/Buffer/Ring/Window.antt =====
-- Windows on the bytes of a ring: `n` bytes from an index on, going round at the end.
use open_airbus_cockpit.Prelude.{
  ℕ, zero, suc, ◌+◌, ◌-◌, ◌≤◌, ◌≡◌, refl, sym, ap, ap₂, ◌∙◌, ◌⊎◌, inl, inr, arith, List, [], ◌∷◌,
  ◌++◌, length, take, drop, overwrite, length-append, length-take, length-drop, length-overwrite,
  take-append_le, drop-append_le, take-append_ge, drop-append_ge, take-append, drop-append,
  take-append-drop, take-nil, drop-drop, drop-take,
}
use native.Mathlib.Nat.{add-zero}

-- `t` bytes on from `s` the index is `e`, in a ring of `cap` bytes whose indices may stand at the end.
abbrev pub Ends : ℕ → ℕ → ℕ → ℕ → Type 0
Ends cap s t e = (s + t ≡ e) ⊎ ((s + t ≡ e + cap) ⊎ (s + t ≡ e + cap + cap))

abbrev pub window : {A : Type 0} → List A → ℕ → ℕ → List A
window bs s n = take n (drop s (bs ++ bs))

pub take-add :
    {A : Type 0} (m n : ℕ) (xs : List A) → take (m + n) xs ≡ take m xs ++ take n (drop m xs)
take-add zero n xs = ap (λ k. take k xs) (omega arith)
take-add (suc m) n [] = rw (take-nil (suc m + n), take-nil n)
take-add (suc m) n (x ∷ xs) =
    let e : suc m + n ≡ suc (m + n) = omega arith in rw e (ap (◌∷◌ x) (take-add m n xs))

-- Bytes of the second copy are bytes of the first.
drop_round :
    {A : Type 0} (bs : List A) (i j : ℕ) → i ≡ j + length bs → drop i (bs ++ bs) ≡ drop j bs
drop_round bs i j e = drop-append_ge i bs bs (omega arith) ∙ ap (λ k. drop k bs) (omega arith)

-- Within the first copy the second does not matter.
pub window_flat :
    {A : Type 0} (bs : List A) (s n : ℕ) → s + n ≤ length bs → window bs s n ≡ take n (drop s bs)
window_flat bs s n h =
    ap (take n) (drop-append_le s bs bs (omega arith))
    ∙ take-append_le n (drop s bs) bs (omega (arith, length-drop s bs))

-- A window that goes round, in its two parts.
window_wrapped :
    {A : Type 0} (bs : List A) (s n w : ℕ)
    → s ≤ length bs
    → s + n ≡ w + length bs
    → window bs s n ≡ drop s bs ++ take w bs
window_wrapped bs s n w h e =
    ap (take n) (drop-append_le s bs bs h)
    ∙ take-append_ge n (drop s bs) bs (omega (arith, length-drop s bs))
    ∙ ap (λ k. drop s bs ++ take k bs) (omega (arith, length-drop s bs))

pub length-window :
    {A : Type 0} (bs : List A) (s n : ℕ)
    → s ≤ length bs
    → n ≤ length bs
    → length (window bs s n) ≡ n
length-window bs s n h k =
    omega (arith, length-take n (drop s (bs ++ bs)), length-drop s (bs ++ bs), length-append bs bs)

-- A window is cut at any place.
pub window_split :
    {A : Type 0} (bs : List A) (s a b e : ℕ)
    → s ≤ length bs
    → e ≤ length bs
    → a + b ≤ length bs
    → Ends (length bs) s a e
    → window bs s (a + b) ≡ window bs s a ++ window bs e b
window_split bs s a b e hs he h ends =
    take-add a b (drop s (bs ++ bs)) ∙ ap (λ xs. window bs s a ++ xs) (tail ends)
  where
    tail : Ends (length bs) s a e → take b (drop a (drop s (bs ++ bs))) ≡ window bs e b
    tail (inl p) = ap (take b) (drop-drop a s (bs ++ bs) ∙ ap (λ k. drop k (bs ++ bs)) p)
    tail (inr (inl p)) =
        ap (take b) (drop-drop a s (bs ++ bs) ∙ drop_round bs (s + a) e p)
        ∙ sym (window_flat bs e b (omega arith))
    tail (inr (inr p)) =
        let none_left : b ≡ 0 = omega arith in
        ap (λ k. take k (drop a (drop s (bs ++ bs)))) none_left
        ∙ ap (λ k. window bs e k) (sym none_left)

-- What stands before the place of a write, and behind it, is kept.
take-overwrite_le :
    {A : Type 0} (bs xs : List A) (w : ℕ) → w ≤ length bs → take w (overwrite bs w xs) ≡ take w bs
take-overwrite_le bs xs w h =
    take-append w (take w bs) (xs ++ drop (w + length xs) bs) (omega (arith, length-take w bs))

drop-overwrite_ge :
    {A : Type 0} (bs xs : List A) (w s : ℕ)
    → w + length xs ≤ s
    → s ≤ length bs
    → drop s (overwrite bs w xs) ≡ drop s bs
drop-overwrite_ge bs xs w s h k =
    let size = length-take w bs in
    drop-append_ge s (take w bs) (xs ++ drop (w + length xs) bs) (omega arith)
    ∙ drop-append_ge (s - length (take w bs)) xs (drop (w + length xs) bs) (omega arith)
    ∙ drop-drop (s - length (take w bs) - length xs) (w + length xs) bs
    ∙ ap (λ k. drop k bs) (omega arith)

-- The bytes of a write stand at its place.
drop-overwrite_self :
    {A : Type 0} (bs xs : List A) (w : ℕ)
    → w + length xs ≤ length bs
    → take (length xs) (drop w (overwrite bs w xs)) ≡ xs
drop-overwrite_self bs xs w h =
    ap (take (length xs))
      (drop-append w (take w bs) (xs ++ drop (w + length xs) bs) (omega (arith, length-take w bs)))
    ∙ take-append (length xs) xs (drop (w + length xs) bs) refl

-- A write at the end of a window, into what the window leaves free, does not touch the window.
window-overwrite :
    {A : Type 0} (bs xs : List A) (s t w : ℕ)
    → s ≤ length bs
    → w + length xs ≤ length bs
    → t + length xs ≤ length bs
    → Ends (length bs) s t w
    → window (overwrite bs w xs) s t ≡ window bs s t
window-overwrite bs xs s t w hs hw ht (inl p) =
    let size = length-overwrite bs w xs hw in
    let whole : w - s ≡ t = omega arith in
    let piece : (ys : List _) → take t (drop s ys) ≡ drop s (take w ys) =
      λ ys. ap (λ k. take k (drop s ys)) (sym whole) ∙ sym (drop-take s w ys) in
    window_flat (overwrite bs w xs) s t (omega arith)
    ∙ piece (overwrite bs w xs)
    ∙ ap (drop s) (take-overwrite_le bs xs w (omega arith))
    ∙ sym (piece bs)
    ∙ sym (window_flat bs s t (omega arith))
window-overwrite bs xs s t w hs hw ht (inr (inl p)) =
    let size = length-overwrite bs w xs hw in
    window_wrapped (overwrite bs w xs) s t w (omega arith) (omega arith)
    ∙ ap₂ (λ ys zs. ys ++ zs) (drop-overwrite_ge bs xs w s (omega arith) hs)
        (take-overwrite_le bs xs w (omega arith))
    ∙ sym (window_wrapped bs s t w hs p)
window-overwrite bs [] s t w hs hw ht (inr (inr p)) =
    ap (λ ys. window ys s t) (ap (λ k. take w bs ++ drop k bs) (add-zero w) ∙ take-append-drop w bs)
window-overwrite bs (x ∷ xs) s t w hs hw ht (inr (inr p)) = absurd (omega arith)

-- The same write extends the window by what it wrote.
pub window-append :
    {A : Type 0} (bs xs : List A) (s t w : ℕ)
    → s ≤ length bs
    → w + length xs ≤ length bs
    → t + length xs ≤ length bs
    → Ends (length bs) s t w
    → window (overwrite bs w xs) s (t + length xs) ≡ window bs s t ++ xs
window-append bs xs s t w hs hw ht ends =
    let size = length-overwrite bs w xs hw in
    window_split (overwrite bs w xs) s t (length xs) w (omega arith) (omega arith) (omega arith)
      (rw size ends)
    ∙ ap₂ (λ ys zs. ys ++ zs) (window-overwrite bs xs s t w hs hw ht ends)
        (window_flat (overwrite bs w xs) w (length xs) (omega arith)
          ∙ drop-overwrite_self bs xs w hw)
