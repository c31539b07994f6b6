-- ===== src/Aux/File/Delivery.antt =====
-- A file that one program sends and the other receives, from the header to the footer.
use lidi_4d8d19daa.Common.{
  ℕ, suc, ◌-◌, ◌^◌, ◌<◌, ◌≡◌, refl, ◌∙◌, ap, sym, List, [], ◌++◌, Option, none, some, true, false,
  ok, ◌==◌, if◌then◌else◌, length, append-nil, arith, ==_refl,
}
use lidi_4d8d19daa.Common.Reader.{Wait, AllReady}
use lidi_4d8d19daa.Aux.File.{Library, Config, diode, invalid_hash}
use lidi_4d8d19daa.Aux.File.Header.{
  Header, IsHeader, serialize_header, serialize_footer, deserialize_header-serialize_header,
  deserialize_footer, deserialize_footer-serialize_footer,
}
use lidi_4d8d19daa.Aux.File.Send as Send
use lidi_4d8d19daa.Aux.File.Send.{Source, writes, footer_hash, new_hasher, send_file_aux}
use lidi_4d8d19daa.Aux.File.Receive as Receive
use lidi_4d8d19daa.Aux.File.Receive.{
  Directory, Received, Progress, done, stopped, check_footer, receive_body, receive_file,
}
use lidi_4d8d19daa.Aux.File.Digest.{digest}
use lidi_4d8d19daa.Aux.File.Transfer.{sent_whole, send_loop_lem, receive_loop_lem}

abbrev header_of : Source → List ℕ → Header
header_of f name = record { file_name = name; mode = f.mode; file_length = f.metadata_length }

-- A file that can be opened, has a name that fits the header, and keeps its length.
pub record IsSendable (lib : Library) (f : Source) (name : List ℕ) : Type 0 where
  pub regular : f.is_file ≡ true
  pub opens : f.open_error ≡ none
  pub named : f.name ≡ some name
  pub fits : IsHeader lib (header_of f name)
  pub steady : f.metadata_length ≡ length f.content

-- The directory takes a new file of the base name.
pub record IsFree (dir : Directory) (name base : List ℕ) : Type 0 where
  pub based : dir.base_name name ≡ some base
  pub unused : dir.occupied base ≡ false
  pub opens : dir.open_error base ≡ none

-- The outcome of the comparison of the hashes, if the receiving program makes one.
abbrev pub verdict : (lib : Library) → Option lib.Hash → ℕ → ℕ → Progress
verdict lib none hash total = done total
verdict lib (some h) hash total =
    if hash == lib.finish h then done total else stopped (diode (invalid_hash (lib.finish h) hash))

module _ (lib : Library) where
  -- The hash that a program computes of a file.
  abbrev pub file_digest : Config → List ℕ → Option lib.Hash
  file_digest c content = digest lib c.buffer_size (new_hasher lib c) [] content

  footer_read :
      (hash : ℕ)
      → hash < 2 ^ 128
      → deserialize_footer (serialize_footer (record { hash = hash }))
        ≡ ok (record { hash = hash }, [])
  footer_read hash h =
      ap deserialize_footer (sym (append-nil (serialize_footer (record { hash = hash }))))
      ∙ deserialize_footer-serialize_footer hash [] h

  check_footer_lem :
      (c : Config) (hash file_length : ℕ) (hasher : Option lib.Hash)
      → hash < 2 ^ 128
      → check_footer lib c (serialize_footer (record { hash = hash })) file_length 0 hasher
        ≡ verdict lib hasher hash file_length
  unfolding check_footer
  check_footer_lem c hash file_length none h =
      rw (footer_read hash h, check_footer) (ap done (omega arith))
  check_footer_lem c hash file_length (some hasher) h =
      let whole : file_length - 0 ≡ file_length = omega arith in
      rw (footer_read hash h, whole, check_footer) refl

  send_file_aux_lem :
      (c : Config) (f : Source) (name : List ℕ) (ws : List Wait)
      → IsSendable lib f name
      → 0 < c.buffer_size
      → AllReady (suc (length f.content)) ws
      → send_file_aux lib c f ws
        ≡ writes
            (serialize_header (header_of f name))
            (sent_whole lib c f.content [] (new_hasher lib c) 0)
  unfolding send_file_aux
  send_file_aux_lem c f name ws v room a =
      rw
        (
          v.regular,
          v.opens,
          v.named,
          v.fits.named,
          send_loop_lem lib c ws f.content [] (new_hasher lib c) 0 room a,
        )
        refl

  -- The sending program counts all bytes of the file.
  pub send_file_aux-done :
      (c : Config) (f : Source) (name : List ℕ) (ws : List Wait)
      → IsSendable lib f name
      → 0 < c.buffer_size
      → AllReady (suc (length f.content)) ws
      → (send_file_aux lib c f ws).progress ≡ Send.done (length f.content)
  send_file_aux-done c f name ws v room a =
      ap (λ (s : Send.Sent). s.progress) (send_file_aux_lem c f name ws v room a)
      ∙ ap Send.done (omega arith)

  receive_body_lem :
      (c : Config) (dir : Directory) (header : Header) (base content tail : List ℕ) (ws : List Wait)
      → IsFree dir header.file_name base
      → header.file_length ≡ length content
      → 0 < c.buffer_size
      → AllReady (suc (length content)) ws
      → receive_body lib c dir ws header (content ++ tail) ≡ record {
        created = some (base, header.mode);
        written = content;
        progress = check_footer lib c tail header.file_length 0 (file_digest c content);
      }
  unfolding receive_body
  receive_body_lem c dir header base content tail ws v steady room a =
      rw (v.based, v.unused, v.opens, steady, receive_body)
        (ap (λ (r : Received). record r { created = some (base, header.mode) })
          (receive_loop_lem lib c ws content tail [] (length content) (Receive.new_hasher lib c)
            room a))

  footer_hash_fits :
      (c : Config) (hasher : Option lib.Hash)
      → ((h : lib.Hash) → lib.finish h < 2 ^ 128)
      → footer_hash lib c hasher < 2 ^ 128
  footer_hash_fits c none bounded = omega arith
  footer_hash_fits c (some h) bounded = bounded h

  verdict_same :
      (c : Config) (hasher : Option lib.Hash) (total : ℕ)
      → verdict lib hasher (footer_hash lib c hasher) total ≡ done total
  verdict_same c none total = refl
  verdict_same c (some h) total = rw (==_refl (lib.finish h)) refl

-- A file that the sending program can open, sent with one configuration and received with another
-- into a directory that has no file of its name, is written whole under its own name and mode,
-- however the reads on both sides cut it; the receiving program then compares the hashes, if it
-- computes one.
pub receive_file-send_file_aux :
    (lib : Library) (c c' : Config) (f : Source) (dir : Directory) (name base : List ℕ)
    (ws ws' : List Wait)
    → ((h : lib.Hash) → lib.finish h < 2 ^ 128)
    → IsSendable lib f name
    → IsFree dir name base
    → 0 < c.buffer_size
    → 0 < c'.buffer_size
    → AllReady (suc (length f.content)) ws
    → AllReady (suc (length f.content)) ws'
    → receive_file lib c' dir ws' (send_file_aux lib c f ws).bytes ≡ record {
      created = some (base, f.mode);
      written = f.content;
      progress =
          verdict lib
            (file_digest lib c' f.content)
            (footer_hash lib c (file_digest lib c f.content))
            (length f.content);
    }
unfolding receive_file
receive_file-send_file_aux lib c c' f dir name base ws ws' bounded v free room room' a a' =
    let hash : ℕ = footer_hash lib c (file_digest lib c f.content) in
    let footer : List ℕ = serialize_footer (record { hash = hash }) in
    let fits : hash < 2 ^ 128 = footer_hash_fits lib c (file_digest lib c f.content) bounded in
    rw
      (
        send_file_aux_lem lib c f name ws v room a,
        deserialize_header-serialize_header lib (header_of f name) (f.content ++ footer) v.fits,
        receive_file,
      )
      (receive_body_lem lib c' dir (header_of f name) base f.content footer ws' free v.steady room'
          a'
        ∙ rw
            (
              check_footer_lem lib c' hash f.metadata_length (file_digest lib c' f.content) fits,
              v.steady,
            )
            refl)

-- With the same buffer size on both sides, and hashes computed on both or on neither, the received
-- file passes: the receiving program returns its length.
pub receive_file_passes :
    (lib : Library) (c : Config) (f : Source) (dir : Directory) (name base : List ℕ)
    (ws ws' : List Wait)
    → ((h : lib.Hash) → lib.finish h < 2 ^ 128)
    → IsSendable lib f name
    → IsFree dir name base
    → 0 < c.buffer_size
    → AllReady (suc (length f.content)) ws
    → AllReady (suc (length f.content)) ws'
    → (receive_file lib c dir ws' (send_file_aux lib c f ws).bytes).progress
      ≡ done (length f.content)
receive_file_passes lib c f dir name base ws ws' bounded v free room a a' =
    ap (λ r. r.progress)
      (receive_file-send_file_aux lib c c f dir name base ws ws' bounded v free room room a a')
    ∙ verdict_same lib c (file_digest lib c f.content) (length f.content)
