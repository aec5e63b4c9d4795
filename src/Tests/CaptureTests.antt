-- ===== src/Tests/CaptureTests.antt =====
-- `payload_receive` of src/payload.c on a few frames, and its filter on a machine.
use softgre.Shared.{
  ℕ, zero, suc, ◌+◌, ◌≡◌, refl, sym, ap, ◌∙◌, true, false, List, [], ◌∷◌, some, arith, ltb, ◌==◌,
  if◌then◌else◌, length, get_elem?, get_or, ok, Returns, some-injective, none-some_absurd,
}
use softgre.Payload.{PayloadPacket, payload_parse}
use softgre.Payload.Safe.{at8, at16}
use softgre.Payload.Filter.{
  SockFilter, ld_h, ld_b, jeq, ret, code, Bpf, outer_gre, code-payload_parse,
}
use softgre.Capture.{Recvfrom, frame, recvfrom_again, payload_receive, max_batch}
use softgre.Capture.Received.{Batch, packets_of, payload_receive-Batch}
use softgre.Tests.Fixtures.{
  client_frame, tunnels_ops, index_ops, macs_ops, quiet_host, idle, config, idle-Owned,
}

-- The machine, by the instructions to skip.
unfoldable exec : List SockFilter → ℕ → List ℕ → ℕ → ℕ
exec [] skip f acc = 0
exec (i ∷ prog) (suc skip) f acc = exec prog skip f acc
exec (ld_h k ∷ prog) zero f acc =
    let rest = exec prog 0 f (at16 f k) in if ltb (k + 1) (length f) then rest else 0
exec (ld_b k ∷ prog) zero f acc =
    let rest = exec prog 0 f (at8 f k) in if ltb k (length f) then rest else 0
exec (jeq k y n ∷ prog) zero f acc = exec prog (if acc == k then y else n) f acc
exec (ret k ∷ prog) zero f acc = k

-- The instruction at a place, and what is behind it.
record Place (prog : List SockFilter) (pc : ℕ) (i : SockFilter) : Type 0 where
  rest : List SockFilter
  here : (f : List ℕ) (acc : ℕ) → exec prog pc f acc ≡ exec (i ∷ rest) 0 f acc
  behind : (j t : ℕ) (f : List ℕ) (acc : ℕ) → t ≡ pc + 1 + j → exec prog t f acc ≡ exec rest j f acc

place :
    (prog : List SockFilter) (pc : ℕ) (i : SockFilter)
    → get_elem? prog pc ≡ some i
    → Place prog pc i
unfolding get_elem? exec
place [] pc i e = absurd (none-some_absurd e)
place (x ∷ prog) zero i e = record {
  rest = prog;
  here = λ f acc. ap (λ y. exec (y ∷ prog) 0 f acc) (some-injective e);
  behind = λ j t f acc h.
      let q : t ≡ suc j = omega (arith, h) in ap (λ (n : ℕ). exec (x ∷ prog) n f acc) q;
}
place (x ∷ prog) (suc pc) i e =
    let p = place prog pc i e in
    record {
      rest = p.rest;
      here = p.here;
      behind = λ j t f acc h.
          let q : t ≡ suc (pc + 1 + j) = omega (arith, h) in
          ap (λ (n : ℕ). exec (x ∷ prog) n f acc) q ∙ p.behind j (pc + 1 + j) f acc refl;
    }

load_h :
    (prog : List SockFilter) (f : List ℕ) (pc acc k : ℕ)
    → get_elem? prog pc ≡ some (ld_h k)
    → exec prog pc f acc ≡ (if ltb (k + 1) (length f) then exec prog (pc + 1) f (at16 f k) else 0)
unfolding exec
load_h prog f pc acc k e =
    let p = place prog pc (ld_h k) e in
    let q : pc + 1 ≡ pc + 1 + 0 = omega arith in
    p.here f acc ∙ rw (p.behind 0 (pc + 1) f (at16 f k) q)

load_b :
    (prog : List SockFilter) (f : List ℕ) (pc acc k : ℕ)
    → get_elem? prog pc ≡ some (ld_b k)
    → exec prog pc f acc ≡ (if ltb k (length f) then exec prog (pc + 1) f (at8 f k) else 0)
unfolding exec
load_b prog f pc acc k e =
    let p = place prog pc (ld_b k) e in
    let q : pc + 1 ≡ pc + 1 + 0 = omega arith in
    p.here f acc ∙ rw (p.behind 0 (pc + 1) f (at8 f k) q)

jump :
    (prog : List SockFilter) (f : List ℕ) (pc acc k y n : ℕ)
    → get_elem? prog pc ≡ some (jeq k y n)
    → exec prog pc f acc ≡ exec prog (pc + 1 + (if acc == k then y else n)) f acc
unfolding exec
jump prog f pc acc k y n e =
    let p = place prog pc (jeq k y n) e in
    let by = if acc == k then y else n in p.here f acc ∙ sym (p.behind by (pc + 1 + by) f acc refl)

returned :
    (prog : List SockFilter) (f : List ℕ) (pc acc k : ℕ)
    → get_elem? prog pc ≡ some (ret k)
    → exec prog pc f acc ≡ k
unfolding exec
returned prog f pc acc k e = (place prog pc (ret k) e).here f acc

abbrev machine : Bpf
machine = record {
  run = λ prog f pc acc. exec prog pc f acc;
  run-ld_h = load_h;
  run-ld_b = load_b;
  run-jeq = jump;
  run-ret = returned;
}

code-payload_parse_example :
    (machine.run code client_frame 0 0 ≡ (if outer_gre client_frame then 65535 else 0))
    × ((p : PayloadPacket)
        → payload_parse client_frame ≡ ok (some p)
        → machine.run code client_frame 0 0 ≡ 65535)
code-payload_parse_example = code-payload_parse machine client_frame 0

frame_passes : exec code 0 client_frame 0 ≡ 65535
unfolding exec at8 at16 get_or
frame_passes = refl

empty_frame_dropped : exec code 0 [] 0 ≡ 0
unfolding exec
empty_frame_dropped = refl

abbrev traffic : ℕ → Recvfrom
traffic zero = frame true client_frame
traffic (suc zero) = frame false client_frame
traffic (suc (suc n)) = recvfrom_again

payload_receive-Batch_example :
    Returns
      (payload_receive config traffic idle)
      (λ r. Batch config (packets_of traffic max_batch 0) idle r.0)
payload_receive-Batch_example = payload_receive-Batch config traffic idle idle-Owned
