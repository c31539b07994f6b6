-- ===== src/Bindings/Calls.antt =====
-- What the C interface returns, and how long a configuration lives.
use lidi_4d8d19daa.Common.{
  ℕ, suc, ◌^◌, ◌<◌, ◌≡◌, ◌≢◌, refl, sym, ap, ◌∙◌, inl, inr, List, Option, none, some, false, ltb,
  ◌==◌, if◌then◌else◌, length, String, arith, Bool-cases, ==_iff, ==_refl, Option-cases,
}
use lidi_4d8d19daa.Common.Reader.{AllReady}
use lidi_4d8d19daa.Aux.{DiodeSend, tcp}
use lidi_4d8d19daa.Aux.File.{Library}
use lidi_4d8d19daa.Aux.File.Send.{Progress, waiting, done, stopped, send_file_aux}
use lidi_4d8d19daa.Aux.File.Delivery.{IsSendable, send_file_aux-done}
use lidi_4d8d19daa.Aux.File.Programs.{FileConfig, World, send_file}
use lidi_4d8d19daa.Bindings.{
  Heap, returned, undefined, Strings, store, diode_new_config, diode_free_config, sent_count,
  diode_send_file,
}

abbrev pub config_of : String → ℕ → FileConfig DiodeSend
config_of socket_addr buffer_size = record {
  diode = tcp socket_addr;
  config = record { buffer_size = buffer_size; hash = false };
  max_files = 0;
}

sent_count-positive :
    (p : Progress) (n : ℕ) → sent_count p ≡ returned (suc n) → (p ≡ done (suc n)) × (suc n < 2 ^ 32)
unfolding sent_count
sent_count-positive waiting n e = cc
sent_count-positive (done total) n e = elim (Bool-cases (ltb total (2 ^ 32))) [
  | inl small ↦ let same : total ≡ suc n = cc (rw small at e) in (ap done same, ground arith)
  | inr large ↦ cc (rw large at e)
]
sent_count-positive (stopped k) n e = cc

send_file-live :
    (lib : Library) (strings : Strings) (w : World) (heap : Heap) (address : ℕ) (path : List ℕ)
    (c : FileConfig DiodeSend)
    → heap address ≡ some c
    → diode_send_file lib strings w heap (some address) (some path)
      ≡ sent_count (send_file lib w 0 c (strings.from_utf8_lossy path)).progress
unfolding diode_send_file
send_file-live lib strings w heap address path c live = rw (live, diode_send_file) refl

store-same :
    (heap : Heap) (address : ℕ) (content : Option (FileConfig DiodeSend))
    → store heap address content address ≡ content
store-same heap address content = rw (==_refl address) refl

store-other :
    (heap : Heap) (address other : ℕ) (content : Option (FileConfig DiodeSend))
    → other ≢ address
    → store heap address content other ≡ heap other
store-other heap address other content h = elim (Bool-cases (other == address)) [
  | inl e ↦ absurd (h ((==_iff other address).0 e))
  | inr e ↦ rw e refl
]

-- An address that the C interface parses gives a configuration at the address of the allocator, which
-- was not in use; the other configurations stay. Files are sent with it, without hashes, until it is
-- freed: then the allocations are those from before, and another use of the pointer is undefined.
pub new_config-lifecycle :
    (lib : Library) (strings : Strings) (w : World) (heap : Heap) (address buffer_size : ℕ)
    (addr path : List ℕ) (socket_addr : String)
    → heap address ≡ none
    → strings.socket_addr (strings.from_utf8_lossy addr) ≡ some socket_addr
    → (live : Heap) × (freed : Heap) × (diode_new_config strings heap address
          (some addr)
          buffer_size
        ≡ returned (some address, live))
      × ((other : ℕ) → other ≢ address → live other ≡ heap other)
      × (diode_send_file lib strings w live (some address) (some path)
          ≡ sent_count
              (send_file lib w 0
                (config_of socket_addr buffer_size)
                (strings.from_utf8_lossy path)).progress)
      × (diode_free_config live (some address) ≡ returned freed)
      × ((other : ℕ) → freed other ≡ heap other)
      × (diode_send_file lib strings w freed (some address) (some path) ≡ undefined)
unfolding diode_new_config diode_free_config diode_send_file
new_config-lifecycle lib strings w heap address buffer_size addr path socket_addr unused parsed =
    let c : FileConfig DiodeSend = config_of socket_addr buffer_size in
    let live : Heap = store heap address (some c) in
    let freed : Heap = store live address none in
    let here = store-same heap address (some c) in
    let gone = store-same live address none in
    (
      live,
      freed,
      rw (parsed, diode_new_config) refl,
      λ other h. store-other heap address other (some c) h,
      send_file-live lib strings w live address path c here,
      rw (here, diode_free_config) refl,
      λ other. elim (Bool-cases (other == address)) [
        | inl e ↦ rw (e, (==_iff other address).0 e, unused) refl
        | inr e ↦ rw e refl
      ],
      rw (gone, diode_send_file) refl,
    )

-- A positive result of `diode_send_file` is returned only for a pointer to a configuration, and a file
-- of which so many bytes were counted when it was sent.
pub send_file-positive :
    (lib : Library) (strings : Strings) (w : World) (heap : Heap) (address n : ℕ) (path : List ℕ)
    → diode_send_file lib strings w heap (some address) (some path) ≡ returned (suc n)
    → (c : FileConfig DiodeSend) × (heap address ≡ some c)
      × ((send_file lib w 0 c (strings.from_utf8_lossy path)).progress ≡ done (suc n))
unfolding diode_send_file
send_file-positive lib strings w heap address n path e = elim (Option-cases (heap address)) [
  | inl dangling ↦ cc (rw (dangling, diode_send_file) at e)
  | inr (c, live) ↦
      let counted = send_file-live lib strings w heap address path c live in
      (c, live, (sent_count-positive _ n (sym counted ∙ e)).0)
]

-- A file that can be opened, over a connection that the diode takes: `diode_send_file` returns its
-- length if that is below 2 ^ 32, and otherwise 0, as for a file that was not sent.
pub send_file_counts :
    (lib : Library) (strings : Strings) (w : World) (heap : Heap) (address : ℕ) (path name : List ℕ)
    (c : FileConfig DiodeSend)
    → heap address ≡ some c
    → w.connect 0 c.diode ≡ none
    → IsSendable lib (w.source 0 (strings.from_utf8_lossy path)) name
    → 0 < c.config.buffer_size
    → AllReady (suc (length (w.source 0 (strings.from_utf8_lossy path)).content)) (w.reads 0)
    → (let size = length (w.source 0 (strings.from_utf8_lossy path)).content in
        diode_send_file lib strings w heap (some address) (some path)
        ≡ returned (if ltb size (2 ^ 32) then size else 0))
unfolding send_file sent_count
send_file_counts lib strings w heap address path name c live up v room a =
    let file : String = strings.from_utf8_lossy path in
    send_file-live lib strings w heap address path c live
    ∙ ap (λ s. sent_count s.progress) (connected up)
    ∙ ap sent_count (send_file_aux-done lib c.config (w.source 0 file) name (w.reads 0) v room a)
  where
    connected :
        w.connect 0 c.diode ≡ none
        → send_file lib w 0 c (strings.from_utf8_lossy path)
          ≡ send_file_aux lib c.config (w.source 0 (strings.from_utf8_lossy path)) (w.reads 0)
    connected e = rw (e, send_file) refl
