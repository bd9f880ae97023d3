-- ===== src/Store/ScanExact.antt =====
-- The entries that a client reads after `Store::scan` in a store that was just opened (src/store.rs).
use woodshed.Base.{
  ℕ, suc, ◌≤◌, ◌≡◌, refl, sym, ap, ap₂, subst, ◌∙◌, Bool, inl, inr, true, false, max, List, [], ◌∷◌,
  ◌++◌, length, All-split, some, leb, ok, arith, if◌then◌else◌,
}
use woodshed.Hash.{Hasher}
use woodshed.Yatlv.{Yatlv}
use woodshed.Files.{magic_len}
use woodshed.Frame.Frames.{Frame}
use woodshed.Index
use woodshed.Index.{EntryIndex, find}
use woodshed.Index.Floor.{find-last_position}
use woodshed.State.{SegmentEntry, EntryId, ManifestOp, is_live}
use woodshed.State.View.{find_segment-is_live}
use woodshed.Scan.Segments.{Content, clean_reports}
use woodshed.Store.{Store, World}
use woodshed.Store.Open.{open_store, index_of}
use woodshed.Store.Read.{StoreReader, scan_start, is_behind, last_entry_id, scan}
use woodshed.Store.Consistent.{Consistent}
use woodshed.Store.Reopen.{reopened, reopened-Consistent, open_store_lem}
use woodshed.Store.Log.{log_of, log_of-append}
use woodshed.Store.Drain.{drain}
use woodshed.Store.ScanFrom.{StartsAt, scan-drain}
use woodshed.Store.Rising.{
  Rising, Below, FromOn, entries_from, leading, trailing, Rising-split, entries_from-append,
  entries_from-Below, entries_from-FromOn, leading-append-trailing, leading-Below,
  entries_from-Rising,
}
use woodshed.Store.Indexed.{indexed, index_of-indexed, Filled, indexed-Ordered}
use woodshed.Store.Locate.{Located, Absent, locate}

StartsAt-unless :
    (b : Bool) (target : EntryId) (x : Frame) (xs ys : List Frame)
    → leb target x.0 ≡ b
    → StartsAt target ys
    → StartsAt target (if b then x ∷ xs else ys)
StartsAt-unless true target x xs ys e h = ground arith
StartsAt-unless false target x xs ys e h = h

pub trailing-StartsAt : (target : EntryId) (xs : List Frame) → StartsAt target (trailing target xs)
unfolding trailing
trailing-StartsAt target [] = tt
trailing-StartsAt target (x ∷ xs) =
    StartsAt-unless (leb target x.0) target x xs (trailing target xs) refl
      (trailing-StartsAt target xs)

-- The segment in which a scan from `target` starts.
record Chosen (content : Content) (s : Store) (target : EntryId) : Type 0 where
  front : List SegmentEntry
  e : SegmentEntry
  back : List SegmentEntry
  offset : ℕ
  same : s.state.segments ≡ front ++ (e ∷ back)
  start : scan_start s target ≡ some (e.id, offset)
  before : Below target (log_of content front)
  behind : FromOn target (log_of content back)

-- What is read from there are the entries from `target` on.
Chosen-log :
    (content : Content) (s : Store) (target : EntryId) (c : Chosen content s target)
    → Rising (log_of content s.state.segments)
    → trailing target (content c.e.id) ++ log_of content c.back
      ≡ entries_from target (log_of content s.state.segments)
unfolding log_of
Chosen-log content s target c rising =
    let split = ap (log_of content) c.same ∙ log_of-append content c.front (c.e ∷ c.back) in
    let (_, near, _) =
      Rising-split (log_of content c.front) (log_of content (c.e ∷ c.back))
        (subst Rising split rising) in
    let (here, _, _) = Rising-split (content c.e.id) (log_of content c.back) near in
    sym (
      ap (entries_from target) split
      ∙ entries_from-append target (log_of content c.front) (log_of content (c.e ∷ c.back))
      ∙ ap₂ (λ a b. a ++ b) (entries_from-Below target (log_of content c.front) c.before)
          (entries_from-append target (content c.e.id) (log_of content c.back)
            ∙ ap₂ (λ a b. a ++ b) (entries_from-Rising target (content c.e.id) here)
                (entries_from-FromOn target (log_of content c.back) c.behind)))

module _ ⦃h : Hasher⦄ ⦃y : Yatlv⦄ (es : List ManifestOp) (content : Content) (w : World)
    (c : Consistent es content w)
    (index : w.store.index ≡ index_of Index.new (clean_reports content w.store.state.segments))
    (rising : Rising (log_of content w.store.state.segments))
    (filled : Filled content w.store.state.segments) (target : EntryId) where
  find_lem :
      find w.store.index target
      ≡ Index.Floor.last_position target (indexed content w.store.state.segments)
  find_lem =
      ap (λ i. find i target) (index ∙ index_of-indexed content w.store.state.segments)
      ∙ find-last_position (record { segments = indexed content w.store.state.segments }) target
          (indexed-Ordered content w.store.state.segments rising filled)

  Located-Chosen : Located content target w.store.state.segments → Chosen content w.store target
  unfolding scan_start
  Located-Chosen l = record {
    front = l.front;
    e = l.e;
    back = l.back;
    offset = l.position.byte_offset;
    same = l.same;
    start = ground (arith, find_lem, l.found, l.at_segment);
    before = l.before;
    behind = l.behind;
  }

  Absent-Chosen :
      (segs : List SegmentEntry)
      → w.store.state.segments ≡ segs
      → is_live w.store.active_id segs ≡ true
      → Absent content target segs
      → Chosen content w.store target
  unfolding scan_start is_live log_of
  Absent-Chosen [] same live a = absurd (ground arith)
  Absent-Chosen (e ∷ back) same live (none_there, behind) = record {
    front = [];
    e = e;
    back = back;
    offset = magic_len;
    same = same;
    start = ground (arith, find_lem, none_there, same);
    before = tt;
    behind = (All-split (λ g. target ≤ g.0) (content e.id) (log_of content back) behind).1;
  }

  chosen : Chosen content w.store target
  chosen = elim (locate content target w.store.state.segments rising) [
    | inl absent ↦
        Absent-Chosen w.store.state.segments refl
          (find_segment-is_live w.store.active_id w.store.state.segments _ c.entry) absent
    | inr located ↦ Located-Chosen located
  ]

-- In a store that agrees with its disk and has the index of its segments, where the ids of the log rise
-- and every segment but the last has a frame, a scan from `from`, not behind the last entry, gives a
-- reader with which a client reads the entries of the log from `from`, or from the log's head where
-- that is later, and no others, in their order.
scan-entries_from :
    ⦃h : Hasher⦄
    → ⦃y : Yatlv⦄ → (es : List ManifestOp) (content : Content) (w : World) (from : EntryId)
    → Consistent es content w
    → w.store.index ≡ index_of Index.new (clean_reports content w.store.state.segments)
    → Rising (log_of content w.store.state.segments)
    → Filled content w.store.state.segments
    → is_behind (max from w.store.state.first_entry) (last_entry_id w.store) ≡ false
    → (reader : StoreReader) × (scan w.store w.disk from ≡ some reader)
      × (drain
            (suc (
              length (
                entries_from
                  (max from w.store.state.first_entry)
                  (log_of content w.store.state.segments))))
            w.disk
            w.store.state
            reader
          ≡ some (
              entries_from
                (max from w.store.state.first_entry)
                (log_of content w.store.state.segments)))
scan-entries_from es content w from c index rising filled visible =
    let target = max from w.store.state.first_entry in
    let p = chosen es content w c index rising filled target in
    let (reader, run, read) =
      scan-drain es content w from p.offset p.front p.back p.e (leading target (content p.e.id))
        (trailing target (content p.e.id)) c p.same visible p.start
        (leading-append-trailing target (content p.e.id)) (leading-Below target (content p.e.id))
        (trailing-StartsAt target (content p.e.id)) in
    (
      reader,
      run,
      subst (λ l. drain (suc (length l)) w.disk w.store.state reader ≡ some l)
          (Chosen-log content w.store target p rising) read,
    )

-- Opening the disk of a store that agrees with it, where the ids of the log rise and every segment but
-- the last has a frame, and then scanning from `from`, not behind the last entry, gives a reader with
-- which a client reads the entries of the log from `from`, or from the log's head where that is
-- later, and no others, in their order.
pub reopened-scan :
    ⦃h : Hasher⦄
    → ⦃y : Yatlv⦄
    → (trigger : ℕ) (es : List ManifestOp) (content : Content) (w : World) (from : EntryId)
      (c : Consistent es content w)
    → Rising (log_of content w.store.state.segments)
    → Filled content w.store.state.segments
    → is_behind
        (max from w.store.state.first_entry)
        (last_entry_id (reopened trigger es content w c))
      ≡ false
    → (s : Store) × (reader : StoreReader) × (open_store trigger w.disk ≡ (ok s, w.disk))
      × (scan s w.disk from ≡ some reader)
      × (drain
            (suc (
              length (
                entries_from
                  (max from w.store.state.first_entry)
                  (log_of content w.store.state.segments))))
            w.disk
            s.state
            reader
          ≡ some (
              entries_from
                (max from w.store.state.first_entry)
                (log_of content w.store.state.segments)))
reopened-scan trigger es content w from c rising filled visible =
    let s = reopened trigger es content w c in
    let (reader, run, read) =
      scan-entries_from es content (record { store = s; disk = w.disk }) from
        (reopened-Consistent trigger es content w c) refl rising filled visible in
    (s, reader, open_store_lem trigger es content w c, run, read)
