-- ===== src/Buffer/Ring/Additions.antt =====
-- What one store of a write does to the bytes that the ring holds.
use open_airbus_cockpit.Prelude.{
  ℕ, ◌+◌, ◌≤◌, ◌≡◌, refl, ap, ap₂, ◌∙◌, arith, List, ◌++◌, length, length-append, append_assoc,
  overwrite,
}
use open_airbus_cockpit.Buffer.Interface.{Buffer, IsBuffer}
use open_airbus_cockpit.Buffer.Ring.Window.{Ends, window, window-append}
use open_airbus_cockpit.Buffer.Ring.{Ring}
use open_airbus_cockpit.Buffer.Ring.Laws.{start_of, Ends-add, cap, IsValid, contents, retained}

module _ {B : Type 0} {ops : Buffer B} {bytes : B → List ℕ} {Valid : B → Type 0}
    (laws : IsBuffer ops bytes Valid) where
  -- What is so of a ring `r'` when the bytes `xs` have been written to `r`.
  pub record Put (r : Ring B) (xs : List ℕ) (r' : Ring B) : Type 0 where
    pub valid : IsValid laws r'
    pub joined : contents laws r' ≡ contents laws r ++ xs
    pub kept : retained laws r' ≡ retained laws r ++ xs
    pub same_cap : cap laws r' ≡ cap laws r
    pub same_mark : r'.mark ≡ r.mark
    pub same_read : r'.read_index ≡ r.read_index
    pub same_dist : r'.dist_from_mark ≡ r.dist_from_mark
    pub more : r'.bytes_written ≡ r.bytes_written + length xs

  pub Put-Put :
      (r r' r'' : Ring B) (xs ys : List ℕ) → Put r xs r' → Put r' ys r'' → Put r (xs ++ ys) r''
  Put-Put r r' r'' xs ys t u = record {
    valid = u.valid;
    joined = u.joined ∙ ap (λ zs. zs ++ ys) t.joined ∙ append_assoc (contents laws r) xs ys;
    kept = u.kept ∙ ap (λ zs. zs ++ ys) t.kept ∙ append_assoc (retained laws r) xs ys;
    same_cap = u.same_cap ∙ t.same_cap;
    same_mark = u.same_mark ∙ t.same_mark;
    same_read = u.same_read ∙ t.same_read;
    same_dist = u.same_dist ∙ t.same_dist;
    more = omega (arith, u.more, t.more, length-append xs ys);
  }

  -- The ring when `xs` has been stored in `b`, and writing goes on at `e`.
  abbrev pub stored : B → List ℕ → ℕ → Ring B → Ring B
  stored b xs e r = record r {
    self = b;
    write_index = e;
    bytes_written = r.bytes_written + length xs;
  }

  -- Bytes stored at the write index, up to a place `e` that lies as many bytes on.
  pub stored-Put :
      (r : Ring B) (b : B) (xs : List ℕ) (e : ℕ)
      → IsValid laws r
      → Valid b
      → bytes b ≡ overwrite (bytes r.self) r.write_index xs
      → ops.capacity b ≡ cap laws r
      → r.write_index + length xs ≤ cap laws r
      → r.dist_from_mark + r.bytes_written + length xs ≤ cap laws r
      → e ≤ cap laws r
      → Ends (cap laws r) r.read_index (r.bytes_written + length xs) e
      → Put r xs (stored b xs e r)
  unfolding contents retained
  stored-Put r b xs e v vb image same inside fits he ends' = record {
    valid = record {
      self_valid = vb;
      positive = rw same v.positive;
      read_in = rw same v.read_in;
      write_in = rw same he;
      start_in = rw same v.start_in;
      total = omega (arith, same);
      no_mark = v.no_mark;
      from_start = rw same v.from_start;
      from_read = rw same ends';
    };
    joined =
        ap (λ zs. window zs r.read_index (r.bytes_written + length xs)) image
        ∙ window-append bs xs r.read_index r.bytes_written r.write_index (rw size v.read_in)
            (rw size inside) (omega arith) (rw size v.from_read);
    kept =
        ap₂ (λ zs m. window zs (start_of r.mark r.read_index) m) image (omega arith)
        ∙ window-append bs xs (start_of r.mark r.read_index) (r.dist_from_mark + r.bytes_written)
            r.write_index (rw size v.start_in) (rw size inside) (omega arith)
            (rw size (
              Ends-add (cap laws r) (start_of r.mark r.read_index) r.dist_from_mark r.read_index
                r.bytes_written r.write_index v.positive v.start_in v.total v.from_start
                v.from_read));
    same_cap = same;
    same_mark = refl;
    same_read = refl;
    same_dist = refl;
    more = refl;
  }
    where
      bs : List ℕ
      bs = bytes r.self

      size : length bs ≡ cap laws r
      size = laws.length-bytes r.self v.self_valid
