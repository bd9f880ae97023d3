-- ===== src/Frame/Scanner.antt =====
-- `FrameScanner` and `FrameReader` of src/frame.rs. A method is an action on the scanner.
pub mod Step
use woodshed.Base.{
  ℕ, zero, suc, ◌+◌, ◌-◌, List, [], ◌∷◌, ◌++◌, Option, none, some, length, take, drop, Result, ok,
  err, ltb, leb, ◌==◌, if◌then◌else◌,
}
use woodshed.Hash.{Hasher}
use woodshed.File.{File, unread}
use woodshed.Frame.Format.{header_len, header_id, header_payload_len, header_checksum, checksum}

-- `reader` is what the buffered reader still delivers.
pub record FrameScanner : Type 0 where
  pub reader : List ℕ
  pub position : ℕ
  pub peeked : Option (List ℕ × ℕ)

-- Reads of an open file do not fail, so there is no `Io`.
pub data ScanError : Type 0 where
  checksum_mismatch truncated : ℕ → ScanError

abbrev pub Scan : Type 0 → Type 0
Scan A = FrameScanner → Result ScanError A × FrameScanner

abbrev pub and_then :
    {A B : Type 0}
    → Result ScanError A × FrameScanner
    → (A → Scan B)
    → Result ScanError B × FrameScanner
and_then (ok a, s) f = f a s
and_then (err e, s) f = (err e, s)

infixl 5 ◌>>=◌
abbrev pub ◌>>=◌ : {A B : Type 0} → Scan A → (A → Scan B) → Scan B
◌>>=◌ m f s = and_then (m s) f

-- `FrameScanner::new` does not move the file's own position.
unfoldable pub new : File → ℕ → FrameScanner
unfolding unread
new file offset = record { reader = unread file; position = offset; peeked = none }

-- At the end of the file there is no header; with fewer bytes than a header it is truncated, and
-- what was there is used up.
unfoldable pub read_header : List ℕ → Scan (Option (List ℕ × ℕ))
read_header [] s = (ok none, s)
read_header (b ∷ bs) s =
    if ltb (length (b ∷ bs)) header_len
    then (err (truncated s.position), record s { reader = [] })
    else (
      ok (some (take header_len (b ∷ bs), s.position)),
      record s {
        reader = drop header_len (b ∷ bs);
        peeked = some (take header_len (b ∷ bs), s.position);
      },
    )

unfoldable pub peek_header : Scan (Option (List ℕ × ℕ))
unfolding read_header
peek_header s = elim s.peeked [ some p ↦ (ok (some p), s) | none ↦ read_header s.reader s ]

unfoldable pub consume_peeked_payload : ℕ → ℕ → Scan (Unit {0})
consume_peeked_payload n frame_start s =
    if ltb (length s.reader) n then (err (truncated frame_start), record s { reader = [] }) else (
      ok tt,
      record { reader = drop n s.reader; position = frame_start + header_len + n; peeked = none },
    )

-- A reader of one frame's payload. It holds the scanner that it advances.
pub record FrameReader : Type 0 where
  pub scanner : FrameScanner
  pub id : ℕ
  pub remaining : ℕ
  pub payload_len : ℕ
  pub frame_start : ℕ

unfoldable pub reader_of : Option (List ℕ × ℕ) → Scan (Option FrameReader)
reader_of none s = (ok none, s)
reader_of (some (header, frame_start)) s =
    let s' = record s { peeked = none } in
    (
      ok (
          some (record {
            scanner = s';
            id = header_id header;
            remaining = header_payload_len header;
            payload_len = header_payload_len header;
            frame_start = frame_start;
          })),
      s',
    )

-- `FrameScanner::read`
unfoldable pub read : Scan (Option FrameReader)
unfolding peek_header reader_of
read = do p ← peek_header; reader_of p

-- The end of the file where the payload goes on.
pub data ReadError : Type 0 where
  unexpected_eof : ReadError

abbrev pub frame_end : FrameReader → ℕ
frame_end r = r.frame_start + header_len + r.payload_len

-- `FrameReader::read` into a buffer of `size` bytes.
unfoldable pub read_payload : ℕ → FrameReader → Result ReadError (List ℕ) × FrameReader
read_payload size r =
    let limit = if ltb r.remaining size then r.remaining else size in
    let bytes = take limit r.scanner.reader in
    let remaining = r.remaining - length bytes in
    let scanner = record r.scanner {
      reader = drop limit r.scanner.reader;
      position = if remaining == 0 then frame_end r else r.scanner.position;
    } in
    if r.remaining == 0
    then (ok [], r)
    else if length bytes == 0
    then (err unexpected_eof, r)
    else (ok bytes, record r { scanner = scanner; remaining = remaining })

-- `read_to_end`: reads with room for all, until a read delivers nothing or fails.
unfoldable pub read_to_end : FrameReader → Result ReadError (List ℕ) × FrameReader
unfolding read_payload
read_to_end r =
    let (first, r') = read_payload (r.remaining + 1) r in
    let (last, r'') = read_payload (r'.remaining + 1) r' in
    elim first [
      | err e ↦ (err e, r')
      | ok bytes ↦ elim last [ err e ↦ (err e, r'') | ok more ↦ (ok (bytes ++ more), r'') ]
    ]

-- `drop`: the scanner behind the payload.
unfoldable pub drop_reader : FrameReader → FrameScanner
drop_reader r =
    if r.remaining == 0
    then r.scanner
    else record r.scanner { reader = drop r.remaining r.scanner.reader; position = frame_end r }

module _ ⦃h : Hasher⦄ where
  unfoldable pub check_payload : Option (List ℕ × ℕ) → Scan (Option (ℕ × ℕ))
  check_payload none s = (ok none, s)
  check_payload (some (header, frame_start)) s =
      let id = header_id header in
      let n = header_payload_len header in
      let s' : FrameScanner = record {
        reader = drop n s.reader;
        position = frame_start + header_len + n;
        peeked = none;
      } in
      if ltb (length s.reader) n
      then (err (truncated frame_start), record s { reader = []; peeked = none })
      else if checksum id (take n s.reader) == header_checksum header
      then (ok (some (id, frame_start)), s')
      else (err (checksum_mismatch frame_start), s')

  -- `FrameScanner::check`: the pieces that the loop hashes are put together.
  unfoldable pub check : Scan (Option (ℕ × ℕ))
  unfolding peek_header check_payload
  check = do p ← peek_header; check_payload p

-- A loop goes on with the scanner, or ends with an error. `none` says that the fuel ran out.
abbrev pub Run : Type 0 → Type 0
Run A = Option (Result ScanError A × FrameScanner)

unfoldable pub go_on :
    {A : Type 0} → Result ScanError (Unit {0}) × FrameScanner → (FrameScanner → Run A) → Run A
go_on (err e, s) next = some (err e, s)
go_on (ok _, s) next = next s

unfoldable pub seek_step :
    ℕ
    → Result ScanError (Option (List ℕ × ℕ)) × FrameScanner
    → (FrameScanner → Run (Unit {0}))
    → Run (Unit {0})
seek_step target (err e, s) next = some (err e, s)
seek_step target (ok none, s) next = some (ok tt, s)
seek_step target (ok (some (header, frame_start)), s) next =
    if leb target (header_id header)
    then some (ok tt, s)
    else go_on
        (consume_peeked_payload (header_payload_len header) frame_start
          (record s { peeked = none }))
        next

unfoldable pub seek_loop : ℕ → ℕ → FrameScanner → Run (Unit {0})
unfolding peek_header consume_peeked_payload go_on seek_step
seek_loop zero target s = none
seek_loop (suc fuel) target s = seek_step target (peek_header s) (seek_loop fuel target)

-- Each round but the first reads a header, so this many rounds are enough.
abbrev pub rounds : FrameScanner → ℕ
rounds s = suc (suc (length s.reader))

-- `FrameScanner::seek_to_id`
unfoldable pub seek_to_id : ℕ → FrameScanner → Run (Unit {0})
unfolding seek_loop
seek_to_id target s = seek_loop (rounds s) target s

unfoldable pub stop_after : ℕ → ℕ → (FrameScanner → Run ℕ) → FrameScanner → Run ℕ
stop_after target id next s = if id == target then some (ok s.position, s) else next s

unfoldable pub after_step :
    ℕ → Result ScanError (Option (List ℕ × ℕ)) × FrameScanner → (FrameScanner → Run ℕ) → Run ℕ
after_step target (err e, s) next = some (err e, s)
after_step target (ok none, s) next = some (err (truncated s.position), s)
after_step target (ok (some (header, frame_start)), s) next =
    go_on
      (consume_peeked_payload (header_payload_len header) frame_start (record s { peeked = none }))
      (stop_after target (header_id header) next)

unfoldable pub after_loop : ℕ → ℕ → FrameScanner → Run ℕ
unfolding peek_header consume_peeked_payload go_on after_step stop_after
after_loop zero target s = none
after_loop (suc fuel) target s = after_step target (peek_header s) (after_loop fuel target)

-- `FrameScanner::scan_to_after`
unfoldable pub scan_to_after : ℕ → FrameScanner → Run ℕ
unfolding after_loop
scan_to_after target s = after_loop (rounds s) target s
