-- ===== src/Storage/Tests/Entry.antt =====
-- The tests of the entries and of the buffer that writes them.
use foyer.Prelude.{
  ℕ, ◌+◌, ◌*◌, ◌/◌, ◌%◌, ◌^◌, ◌≡◌, refl, ap, true, Option, none, some, List, [], ◌∷◌, ◌++◌, arith,
  ◌>>=◌, sum_by,
}
use foyer.Storage.Format.{Code, zstd, write_region}
use foyer.Storage.Format.Bytes.{ByteOrder, ByteOrderLaws, fill}
use foyer.Storage.Buffer.Placed.{nothing}
use foyer.Storage.Device.{write_at}
use foyer.Storage.Entry.{Entry, Crates, encode, read_entry}
use foyer.Storage.Entry.Laws.{CratesLaws, IsSmall, read_entry-encode}
use foyer.Storage.Buffer.{FlushBuffer, Outcome, Machine, new, rotate, write}
use foyer.Storage.Buffer.Flush.{MachineLaws, IsValid, idle, writing}
use foyer.Storage.Buffer.Write.{Rotates, Writes, rotate-Rotates, write-Writes}

-- Big endian, as the crate has it.
abbrev put_u32 : ℕ → List ℕ
put_u32 n = n / 16777216 ∷ n / 65536 % 256 ∷ n / 256 % 256 ∷ n % 256 ∷ []

abbrev get_u32 : List ℕ → Option (ℕ × List ℕ)
get_u32 (a ∷ b ∷ c ∷ d ∷ rest) = some (((a * 256 + b) * 256 + c) * 256 + d, rest)
get_u32 _ = none

abbrev put_u64 : ℕ → List ℕ
put_u64 n = put_u32 (n / 4294967296) ++ put_u32 (n % 4294967296)

abbrev get_u64 : List ℕ → Option (ℕ × List ℕ)
get_u64 l = get_u32 l >>= λ (high, rest).
    get_u32 rest >>= λ (low, rest'). some (high * 4294967296 + low, rest')

abbrev big_endian : ByteOrder
big_endian = record { put_u32 = put_u32; put_u64 = put_u64; get_u32 = get_u32; get_u64 = get_u64 }

u32 : (n : ℕ) → ((n / 16777216 * 256 + n / 65536 % 256) * 256 + n / 256 % 256) * 256 + n % 256 ≡ n
u32 n = omega arith

u64 : (n : ℕ) → n / 4294967296 * 4294967296 + n % 4294967296 ≡ n
u64 n = omega arith

big_endian-ByteOrderLaws : ByteOrderLaws big_endian
big_endian-ByteOrderLaws = record {
  length-put_u32 = λ n. refl;
  length-put_u64 = λ n. refl;
  get-put_u32 = λ n rest b. ap (λ v. some (v, rest)) (u32 n);
  get-put_u64 = λ n rest b. rw (u32 (n / 4294967296), u32 (n % 4294967296), u64 n) refl;
}

-- A key is a number below 256; a value is bytes.
abbrev pub number : Code ℕ
number = record {
  bytes = λ n. n ∷ [];
  read = λ l. elim l as (λ x. Option ℕ) [ [] ↦ none | n ∷ rest ↦ some n ];
  read-bytes = λ n. refl;
}

abbrev pub bytes : Code (List ℕ)
bytes = record { bytes = λ l. l; read = λ l. some l; read-bytes = λ l. refl }

-- A compression that drops nothing, and a checksum that adds.
abbrev pub crates : Crates
crates = record {
  bytes = big_endian;
  zstd_encode = λ l. 40 ∷ l;
  zstd_decode = λ l. elim l as (λ x. Option (List ℕ)) [ [] ↦ none | n ∷ rest ↦ some rest ];
  lz4_encode = λ l. l;
  lz4_decode = λ l. some l;
  checksum = λ l. sum_by (λ n. n) l % 2 ^ 64;
}

pub crates-CratesLaws : CratesLaws crates
crates-CratesLaws = record {
  bytes = big_endian-ByteOrderLaws;
  zstd_decode-encode = λ l. refl;
  lz4_decode-encode = λ l. refl;
  checksum_word = λ l. omega arith;
}

abbrev pub entry : Entry ℕ (List ℕ)
entry = record { key = 7; value = 1 ∷ 2 ∷ 3 ∷ []; sequence = 5; compression = zstd }

pub entry-IsSmall : IsSmall crates number bytes entry
unfolding foyer.Storage.Entry.value_bytes foyer.Storage.Entry.compress
entry-IsSmall = record { key = omega arith; value = omega arith; sequence = omega arith }

read_entry-encode_example :
    read_entry crates number bytes (encode crates number bytes entry ++ (0 ∷ 0 ∷ []))
    ≡ some (some (7, 1 ∷ 2 ∷ 3 ∷ []))
read_entry-encode_example =
    read_entry-encode crates crates-CratesLaws number bytes entry (0 ∷ 0 ∷ []) entry-IsSmall

-- A device of regions of two blocks that never fails.
abbrev pub machine : Machine
machine = record {
  geometry = record { align = 64; io_size = 128; region_size = 128; regions = 4 };
  crates = crates;
  device_write = λ buf r o d. (true, write_at buf r o d);
  junk = λ n. 255;
}

pub machine-MachineLaws : MachineLaws machine
machine-MachineLaws = record {
  crates = crates-CratesLaws;
  header = omega arith;
  block = omega arith;
  addresses = omega arith;
  blocks = refl;
  written = λ buf r o d e. refl;
}

abbrev pub empty : FlushBuffer ℕ (List ℕ)
empty = new machine number bytes (λ r a. 0)

pub empty-IsValid_buffer : IsValid machine number bytes empty
unfolding new
empty-IsValid_buffer = idle refl refl refl

rotate-Rotates_example :
    (s' : FlushBuffer ℕ (List ℕ)) × (o : Outcome ℕ (List ℕ)) × (rotate machine number bytes 3 empty
      ≡ some (s', o))
    × Rotates machine number bytes 3 empty s' o
rotate-Rotates_example =
    rotate-Rotates machine machine-MachineLaws number bytes 3 empty (omega arith)
      empty-IsValid_buffer

-- The buffer after that rotation, which has room for one entry.
abbrev ready : FlushBuffer ℕ (List ℕ)
ready = record {
  buffer = write_region big_endian ++ fill (λ n. 255) 48;
  region = some 3;
  offset = 0;
  entries = [];
  disk = λ r a. 0;
}

ready-IsValid : IsValid machine number bytes ready
unfolding write_region fill
ready-IsValid = writing refl (record {
  aligned = refl;
  at_block = refl;
  in_device = omega arith;
  room = omega arith;
  placed = nothing;
})

write-Writes_example :
    (s' : FlushBuffer ℕ (List ℕ)) × (o : Outcome ℕ (List ℕ)) × (write machine number bytes entry
        ready
      ≡ some (s', o))
    × Writes machine number bytes entry ready s' o
write-Writes_example =
    write-Writes machine machine-MachineLaws number bytes entry ready ready-IsValid entry-IsSmall
