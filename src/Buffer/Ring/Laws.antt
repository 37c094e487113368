-- ===== src/Buffer/Ring/Laws.antt =====
-- The invariant of the ring stream buffer, and what one chunk of a read or a write does to the bytes that
-- it holds.
use open_airbus_cockpit.Prelude.{
  inr, Option-cases, ℕ, ◌+◌, ◌-◌, ◌≤◌, ◌<◌, ◌≡◌, refl, sym, ap, ap₂, ◌∙◌, inl, arith, List, Option,
  none, some, length, drop, drop-append, drop-drop,
}
use open_airbus_cockpit.Buffer.Interface.{Buffer, IsBuffer}
use open_airbus_cockpit.Buffer.Ring.Window.{Ends, window, length-window, window_split}
use open_airbus_cockpit.Buffer.Ring.{Ring, take_off, read_to}

-- Where the bytes begin that the ring keeps: at its mark, or else where reading goes on.
abbrev pub start_of : Option ℕ → ℕ → ℕ
start_of none r = r
start_of (some m) r = m

-- The distance from the mark when `k` bytes more have been read.
abbrev pub distance : Option ℕ → ℕ → ℕ → ℕ
distance none d k = d
distance (some m) d k = d + k

-- How many bytes of those kept go when `k` are read: none if there is a mark.
abbrev pub let_go : Option ℕ → ℕ → ℕ
let_go none k = k
let_go (some m) k = 0

let_go_add : (m : Option ℕ) (a b : ℕ) → let_go m a + let_go m b ≡ let_go m (a + b)
let_go_add none a b = refl
let_go_add (some m) a b = refl

-- Two steps round the ring are one, if it is not longer than the ring.
pub Ends-add :
    (c s a r b w : ℕ) → 0 < c → s ≤ c → a + b ≤ c → Ends c s a r → Ends c r b w → Ends c s (a + b) w
Ends-add c s a r b w hc hs h p q = ground arith

-- The mark and its distance when `k` of `n` bytes have been read.
marks_taken :
    (m : Option ℕ) (c r e d n k : ℕ)
    → 0 < c
    → e ≤ c
    → start_of m r ≤ c
    → d + n ≤ c
    → k ≤ n
    → (m ≡ none → d ≡ 0)
    → Ends c (start_of m r) d r
    → Ends c r k e
    → (start_of m e ≤ c)
      × (distance m d k + (n - k) ≤ c)
      × (m ≡ none → distance m d k ≡ 0)
      × Ends c (start_of m e) (distance m d k) e
marks_taken none c r e d n k hc he hs ht hk none_d from_start ends =
    let zero_d = none_d refl in (he, omega arith, none_d, inl (omega arith))
marks_taken (some m) c r e d n k hc he hs ht hk none_d from_start ends =
    (hs, omega arith, λ p. cc, ground arith)

module _ {B : Type 0} {ops : Buffer B} {bytes : B → List ℕ} {Valid : B → Type 0}
    (laws : IsBuffer ops bytes Valid) where
  abbrev pub cap : Ring B → ℕ
  cap r = ops.capacity r.self

  pub record IsValid (r : Ring B) : Type 0 where
    pub self_valid : Valid r.self
    pub positive : 0 < cap r
    pub read_in : r.read_index ≤ cap r
    pub write_in : r.write_index ≤ cap r
    pub start_in : start_of r.mark r.read_index ≤ cap r
    pub total : r.dist_from_mark + r.bytes_written ≤ cap r
    pub no_mark : r.mark ≡ none → r.dist_from_mark ≡ 0
    pub from_start : Ends (cap r) (start_of r.mark r.read_index) r.dist_from_mark r.read_index
    pub from_read : Ends (cap r) r.read_index r.bytes_written r.write_index

  -- The bytes still to be read, and with them those read since the mark was set.
  unfoldable pub contents : Ring B → List ℕ
  contents r = window (bytes r.self) r.read_index r.bytes_written

  unfoldable pub retained : Ring B → List ℕ
  retained r =
      window (bytes r.self) (start_of r.mark r.read_index) (r.dist_from_mark + r.bytes_written)

  -- The ring when `k` bytes have been taken off, and reading goes on at `e`.
  abbrev pub taken : ℕ → ℕ → Ring B → Ring B
  taken k e r = record r {
    read_index = e;
    bytes_written = r.bytes_written - k;
    dist_from_mark = distance r.mark r.dist_from_mark k;
  }

  pub take_off_lem :
      (r : Ring B) (k e : ℕ)
      → IsValid r
      → k ≤ r.bytes_written
      → (read_to ops e (take_off ops k r) ≡ taken k e r)
        × (take_off ops k (read_to ops e r) ≡ taken k e r)
  unfolding take_off
  take_off_lem r k e v h = ground (arith, laws.capacity_bound r.self v.self_valid)

  -- What is so of a ring `r'` when `k` bytes have been read from `r`.
  pub record Took (r : Ring B) (k : ℕ) (r' : Ring B) : Type 0 where
    pub valid : IsValid r'
    pub left : contents r' ≡ drop k (contents r)
    pub kept : retained r' ≡ drop (let_go r.mark k) (retained r)
    pub same_self : r'.self ≡ r.self
    pub same_mark : r'.mark ≡ r.mark
    pub same_write : r'.write_index ≡ r.write_index
    pub fewer : r'.bytes_written + k ≡ r.bytes_written

  -- Bytes taken off the front, up to a place `e` that lies `k` bytes on.
  pub taken-Took :
      (r : Ring B) (k e : ℕ)
      → IsValid r
      → k ≤ r.bytes_written
      → e ≤ cap r
      → Ends (cap r) r.read_index k e
      → Ends (cap r) e (r.bytes_written - k) r.write_index
      → Took r k (taken k e r)
  unfolding contents retained
  taken-Took r k e v h he ends ends' = record {
    valid = record {
      self_valid = v.self_valid;
      positive = v.positive;
      read_in = he;
      write_in = v.write_in;
      start_in = marks.0;
      total = marks.1;
      no_mark = marks.2;
      from_start = marks.3;
      from_read = ends';
    };
    left = rest;
    kept = elim (Option-cases r.mark) [
      | inl unmarked ↦
          let zero_d = v.no_mark unmarked in
          rw unmarked (
            ap (window bs e) (omega arith)
            ∙ rest
            ∙ ap (λ m. drop k (window bs r.read_index m)) (omega arith))
      | inr (m, marked) ↦ rw marked (ap (window bs m) (omega arith))
    ];
    same_self = refl;
    same_mark = refl;
    same_write = refl;
    fewer = omega arith;
  }
    where
      bs : List ℕ
      bs = bytes r.self

      n : ℕ
      n = r.bytes_written

      size : length bs ≡ cap r
      size = laws.length-bytes r.self v.self_valid

      marks :
          (start_of r.mark e ≤ cap r)
          × (distance r.mark r.dist_from_mark k + (n - k) ≤ cap r)
          × (r.mark ≡ none → distance r.mark r.dist_from_mark k ≡ 0)
          × Ends (cap r) (start_of r.mark e) (distance r.mark r.dist_from_mark k) e
      marks =
          marks_taken r.mark (cap r) r.read_index e r.dist_from_mark n k v.positive he v.start_in
            v.total h v.no_mark v.from_start ends

      rest : window bs e (n - k) ≡ drop k (window bs r.read_index n)
      rest =
          let whole : k + (n - k) ≡ n = omega arith in
          sym (
            ap (λ m. drop k (window bs r.read_index m)) (sym whole)
            ∙ ap (drop k) (
                window_split bs r.read_index k (n - k) e (rw size v.read_in) (rw size he)
                  (omega (arith, v.total)) (rw size ends))
            ∙ drop-append k (window bs r.read_index k) (window bs e (n - k))
                (length-window bs r.read_index k (rw size v.read_in) (omega (arith, v.total))))

      in_cap : r.dist_from_mark + n ≤ cap r
      in_cap = v.total

  pub Took-Took : (r r' r'' : Ring B) (a b : ℕ) → Took r a r' → Took r' b r'' → Took r (a + b) r''
  Took-Took r r' r'' a b t u = record {
    valid = u.valid;
    left = u.left ∙ ap (drop b) t.left ∙ drop-drop b a (contents r);
    kept =
        u.kept
        ∙ ap₂ (λ m xs. drop (let_go m b) xs) t.same_mark t.kept
        ∙ drop-drop (let_go r.mark b) (let_go r.mark a) (retained r)
        ∙ ap (λ n. drop n (retained r)) (let_go_add r.mark a b);
    same_self = u.same_self ∙ t.same_self;
    same_mark = u.same_mark ∙ t.same_mark;
    same_write = u.same_write ∙ t.same_write;
    fewer = omega (arith, u.fewer, t.fewer);
  }

  pub length-contents : (r : Ring B) → IsValid r → length (contents r) ≡ r.bytes_written
  unfolding contents
  length-contents r v =
      let size = laws.length-bytes r.self v.self_valid in
      length-window (bytes r.self) r.read_index r.bytes_written (rw size v.read_in)
        (omega (arith, v.total))
