-- ===== src/Tests/Files.antt =====
-- The file and UDP programs.
use lidi_4d8d19daa.Common.{
  ℕ, ◌%◌, ◌^◌, none, some, false, map, ◌+◌, ◌≡◌, refl, List, [], ◌∷◌, true, ok, arith, length,
}
use lidi_4d8d19daa.Common.Reader.{Wait, ready}
use lidi_4d8d19daa.Aux.File.{Library, Config}
use lidi_4d8d19daa.Aux.File.Send.{Source, footer_hash, send_file_aux}
use lidi_4d8d19daa.Aux.File.Receive.{Directory, done, receive_file}
use lidi_4d8d19daa.Aux.File.Delivery.{
  IsSendable, IsFree, verdict, file_digest, receive_file-send_file_aux, receive_file_passes,
}
use lidi_4d8d19daa.Aux.Udp.{receive_udp, send_udp_aux}
use lidi_4d8d19daa.Aux.Udp.RoundTrip.{deliverable, receive_udp-send_udp_aux}
use lidi_4d8d19daa.Aux.File.Header.{Header, IsHeader}

-- A hasher that counts bytes, and the sizes of the buffers as `Vec::hash` does.
abbrev pub counting : Library
counting = record {
  Hash = ℕ;
  fresh = 0;
  write = λ bytes h. h + length bytes;
  hash_vec = λ bytes h. h + 8 + length bytes;
  finish = λ h. h % 2 ^ 128;
  is_utf8 = λ name. true;
}

abbrev letter_header : Header
letter_header = record { file_name = 97 ∷ 98 ∷ []; mode = 420; file_length = 5 }

letter_header-IsHeader : IsHeader counting letter_header
letter_header-IsHeader = record {
  named = refl;
  short_name = omega arith;
  mode_fits = omega arith;
  length_fits = omega arith;
}

abbrev pub letters : Source
letters = record {
  is_file = true;
  open_error = none;
  name = some (97 ∷ 98 ∷ []);
  mode = 420;
  metadata_length = 5;
  content = 1 ∷ 2 ∷ 3 ∷ 4 ∷ 5 ∷ [];
}

pub letters-IsSendable : IsSendable counting letters (97 ∷ 98 ∷ [])
letters-IsSendable = record {
  regular = refl;
  opens = refl;
  named = refl;
  fits = letter_header-IsHeader;
  steady = refl;
}

abbrev pub empty_directory : Directory
empty_directory = record {
  base_name = λ name. some name;
  occupied = λ name. false;
  open_error = λ name. none;
}

pub empty_directory-IsFree : IsFree empty_directory (97 ∷ 98 ∷ []) (97 ∷ 98 ∷ [])
empty_directory-IsFree = record { based = refl; unused = refl; opens = refl }

abbrev pub threes : Config
threes = record { buffer_size = 3; hash = true }

abbrev pub twos : Config
twos = record { buffer_size = 2; hash = true }

abbrev pub six_reads : List Wait
six_reads = ready 0 ∷ ready 4 ∷ ready 1 ∷ ready 1 ∷ ready 1 ∷ ready 0 ∷ []

receive_file-send_file_aux_example :
    receive_file counting twos empty_directory six_reads
      (send_file_aux counting threes letters six_reads).bytes
    ≡ record {
      created = some (97 ∷ 98 ∷ [], 420);
      written = 1 ∷ 2 ∷ 3 ∷ 4 ∷ 5 ∷ [];
      progress =
          verdict counting
            (file_digest counting twos letters.content)
            (footer_hash counting threes (file_digest counting threes letters.content))
            5;
    }
receive_file-send_file_aux_example =
    receive_file-send_file_aux counting threes twos letters empty_directory (97 ∷ 98 ∷ [])
      (97 ∷ 98 ∷ []) six_reads six_reads (λ h. omega arith) letters-IsSendable
      empty_directory-IsFree (omega arith) (omega arith) (omega arith) (omega arith)

receive_file_passes_example :
    (receive_file counting threes empty_directory six_reads
      (send_file_aux counting threes letters six_reads).bytes).progress
    ≡ done 5
receive_file_passes_example =
    receive_file_passes counting threes letters empty_directory (97 ∷ 98 ∷ []) (97 ∷ 98 ∷ [])
      six_reads six_reads (λ h. omega arith) letters-IsSendable empty_directory-IsFree (omega arith)
      (omega arith) (omega arith)

-- The third datagram is longer than the buffer.
abbrev three_datagrams : List (List ℕ)
three_datagrams = (1 ∷ 2 ∷ []) ∷ [] ∷ (3 ∷ 4 ∷ 5 ∷ []) ∷ []

receive_udp-send_udp_aux_example :
    receive_udp 4 2 (send_udp_aux (map ok three_datagrams)).bytes ≡ deliverable 2 three_datagrams
receive_udp-send_udp_aux_example =
    receive_udp-send_udp_aux 4 2 three_datagrams (omega arith, (omega arith, (omega arith, tt)))
      (omega arith)
