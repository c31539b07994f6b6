-- ===== src/Tests/Toy.antt =====
-- A code that meets the documented behaviour of raptorq: every packet carries the whole block.
use Prim.Native.Nat.{max}
use lidi_4d8d19daa.Common.{
  ℕ, zero, suc, ◌*◌, ◌%◌, ◌≡◌, refl, sym, ap, Option, none, some, Bool, true, false, List, [], ◌∷◌,
  ◌++◌, length, take, replicate, All, arith, length-replicate, nil_of_length, ◌==◌, ltb, leb,
  if◌then◌else◌,
}
use lidi_4d8d19daa.Extern.{Extern, ExternLaws}

abbrev pub ToyPacket : Type 0
ToyPacket = ℕ × List ℕ

abbrev first_block : ℕ → List ToyPacket → Option (List ℕ)
first_block id [] = some []
first_block id ((k, bytes) ∷ ps) = if k == id then some bytes else none

abbrev read_packet : List ℕ → ToyPacket
read_packet [] = (0, [])
read_packet (id ∷ bytes) = (id, bytes)

abbrev has_header : List ℕ → Bool
has_header [] = false
has_header (id ∷ bytes) = true

abbrev pub toy : Extern
toy = record {
  Packet = ToyPacket;
  Plan = ℕ;
  Oti = ℕ;
  generates = λ count. leb count 56403;
  generate = λ count. count;
  accepts_defaults = λ len size. ltb 0 size;
  with_defaults = λ len size. size;
  symbol_size = λ size. size;
  source_packets = λ id size bytes count. replicate count (id, bytes);
  repair_packets = λ id size bytes count start repairs. replicate repairs (id, bytes);
  decode_packets = λ id size len packets. first_block id packets;
  source_block_number = λ p. p.0 % 256;
  serialize_packet = λ p. p.0 ∷ p.1;
  deserializes = has_header;
  deserialize_packet = read_packet;
  vec_capacity = max;
}

All-replicate {ℓ κ} : {A : Type ℓ} (P : A → Type κ) (n : ℕ) (a : A) → P a → All P (replicate n a)
All-replicate P zero a h = tt
All-replicate P (suc n) a h = (h, All-replicate P n a h)

first_block-source :
    (id size count repairs kept : ℕ) (bytes : List ℕ)
    → length bytes ≡ size * count
    → first_block id (replicate count (id, bytes) ++ take kept (replicate repairs (id, bytes)))
      ≡ some bytes
first_block-source id size (suc count) repairs kept bytes h = ground arith
first_block-source id size zero zero zero bytes h =
    ap some (sym (nil_of_length bytes (omega arith)))
first_block-source id size zero zero (suc kept) bytes h =
    ap some (sym (nil_of_length bytes (omega arith)))
first_block-source id size zero (suc repairs) zero bytes h =
    ap some (sym (nil_of_length bytes (omega arith)))
first_block-source id size zero (suc repairs) (suc kept) bytes h = ground arith

pub toy_laws : ExternLaws toy
toy_laws = record {
  deserialize-serialize = λ p. refl;
  deserializes-serialize = λ p. refl;
  number-lt = λ p. omega arith;
  source_number = λ id c bytes plan h. All-replicate _ plan (id, bytes) (omega arith);
  repair_number = λ id c bytes plan start count h. All-replicate _ count (id, bytes) (omega arith);
  length-repair = λ id c bytes plan start count. length-replicate count (id, bytes);
  length-source = λ id size count bytes h e. length-replicate count (id, bytes);
  decode-source = λ id size count start repairs kept bytes e.
      first_block-source id size count repairs kept bytes e;
  vec_capacity_exact = λ c n h. omega arith;
}
