-- ===== src/Buffer/Ring/Streams.antt =====
-- A ring stream buffer is an output stream, so that whole writes and messages go into it.
use open_airbus_cockpit.Prelude.{ℕ, min, ◌≡◌, arith, List, length, take, length-take}
use open_airbus_cockpit.Buffer.Interface.{Buffer, IsBuffer}
use open_airbus_cockpit.Stream.Interface.{InputStream, OutputStream, IsOutput}
use open_airbus_cockpit.Buffer.Ring.{Ring, read, write}
use open_airbus_cockpit.Buffer.Ring.Laws.{IsValid, contents}
use open_airbus_cockpit.Buffer.Ring.WriteRuns.{free}
use open_airbus_cockpit.Buffer.Ring.Writing.{ring_write_lem}

abbrev pub ring_input : {B : Type 0} → Buffer B → InputStream (Ring B)
ring_input ops = record { read = read ops }

abbrev pub ring_output : {B : Type 0} → Buffer B → OutputStream (Ring B)
ring_output ops = record { write = write ops }

module _ {B : Type 0} {ops : Buffer B} {bytes : B → List ℕ} {Valid : B → Type 0}
    (laws : IsBuffer ops bytes Valid) where
  pub ring_output-IsOutput : IsOutput (ring_output ops) (contents laws) (free laws) (IsValid laws)
  ring_output-IsOutput = record {
    accepts = λ r src v.
        let n = min (length src) (free laws r) in
        let (r', run, put) = ring_write_lem laws r src v in
        let size : length (take n src) ≡ n = omega (arith, length-take n src) in
        (
          n,
          r',
          run,
          put.joined,
          omega arith,
          omega (arith, put.same_cap, put.same_dist, put.more, v.total),
          λ given fits. omega arith,
          put.valid,
        );
  }
