-- ===== src/Store/Reopen.antt =====
-- Opening the disk of a store (src/store.rs) that agrees with it.
use woodshed.Base.{
  ℕ, ◌+◌, ◌≤◌, ◌<◌, ◌≡◌, refl, sym, ◌∙◌, true, false, ◌||◌, List, [], ◌∷◌, ◌++◌, map, length, none,
  some, ok, arith, drop,
}
use mathlib.Core.List.{reverse}
use woodshed.Base.Dict.{contains}
use woodshed.Hash.{Hasher}
use woodshed.Yatlv.{Yatlv}
use woodshed.Files.{Disk, magic_len}
use woodshed.Frame.Cursor
use woodshed.Frame.Frames.{frames_size}
use woodshed.Frame.Summary.Loop.{last_id_or}
use woodshed.Index
use woodshed.Issue
use woodshed.Issue.{FileIssue, IssueReport}
use woodshed.Recovery.{attempt_recovery}
use woodshed.State
use woodshed.State.{
  StoreState, SegmentEntry, SegmentId, ManifestOp, is_live, find_segment, active_segment,
}
use woodshed.State.View.{find_segment-is_live}
use woodshed.Manifest.Replay.{manifest_size}
use woodshed.Scan.{scan}
use woodshed.Scan.Segments.{Content, clean_report, clean_reports}
use woodshed.Scan.Clean.{scan_clean}
use woodshed.Store.{Store, World}
use woodshed.Store.Consistent.{Consistent}
use woodshed.Store.Open.{
  find_report, first_seal, or_else, max_of, fresh_id, index_of, opened_store, from_scan_report,
  open_store, rescan,
}

find_report-clean :
    (content : Content) (id : SegmentId) (es : List SegmentEntry)
    → is_live id es ≡ true
    → find_report id (clean_reports content es) ≡ some (clean_report id (content id))
unfolding find_report is_live
find_report-clean content id [] l = absurd (ground arith)
find_report-clean content id (e ∷ es) l = ground (arith, find_report-clean content id es)

pub is_live-nonempty :
    (id : SegmentId) (es : List SegmentEntry) → is_live id es ≡ true → State.is_empty es ≡ false
unfolding is_live State.is_empty
is_live-nonempty id [] l = absurd (ground arith)
is_live-nonempty id (e ∷ es) l = refl

-- The largest id is one of the list, or 0.
max_of-bound :
    (ns : List ℕ) (b : ℕ) → ((j : ℕ) → contains j ns ≡ true → j < b) → 0 < b → max_of ns < b
unfolding max_of contains
max_of-bound [] b h p = p
max_of-bound (n ∷ ns) b h p =
    ground (arith, h n (ground arith), max_of-bound ns b (λ j c. h j (ground arith)) p)

max_of-ge : (ns : List ℕ) (j : ℕ) → contains j ns ≡ true → j ≤ max_of ns
unfolding max_of contains
max_of-ge [] j c = absurd (ground arith)
max_of-ge (n ∷ ns) j c = ground (arith, max_of-ge ns j)

contains-known :
    (es : List SegmentEntry) (dead : List SegmentId) (j : SegmentId)
    → contains j (map (λ e. e.id) es ++ dead) ≡ (is_live j es || contains j dead)
unfolding contains is_live
contains-known [] dead j = refl
contains-known (e ∷ es) dead j = ground (arith, contains-known es dead j)

module _ ⦃h : Hasher⦄ ⦃y : Yatlv⦄ (trigger : ℕ) (es : List ManifestOp) (content : Content)
    (w : World) (c : Consistent es content w) where
  -- The store that opening gives.
  abbrev pub reopened : Store
  reopened = record {
    rollover_trigger_bytes = trigger;
    state = w.store.state;
    index = index_of Index.new (clean_reports content w.store.state.segments);
    manifest_cursor = Cursor.new (manifest_size es);
    segments = [];
    active_id = w.store.active_id;
    active_cursor = Cursor.new (magic_len + frames_size (content w.store.active_id));
    active_first_entry = w.store.active_first_entry;
    active_entry_count = length (content w.store.active_id);
    last_entry_id =
        or_else (last_id_or none (content w.store.active_id))
          (first_seal w.store.state (drop 1 (reverse w.store.state.segments)));
    next_seg_id = fresh_id w.store.state;
    rollover_pending = false;
  }

  active_live : is_live w.store.active_id w.store.state.segments ≡ true
  active_live = find_segment-is_live w.store.active_id w.store.state.segments _ c.entry

  scanned : scan w.disk ≡ record {
    state = w.store.state;
    manifest_next_offset = manifest_size es;
    segments = clean_reports content w.store.state.segments;
    issues = [];
  }
  scanned =
      scan_clean w.store.state w.disk content c.held es c.recorded.there c.recorded.holds
        c.recorded.carried c.recorded.replays
        (is_live-nonempty w.store.active_id w.store.state.segments active_live)

  -- The report of the scan is enough to open the store.
  pub from_scan_report_lem : from_scan_report trigger (scan w.disk) ≡ ok reopened
  unfolding from_scan_report opened_store active_segment Issue.is_empty
  from_scan_report_lem = ground (
    arith,
    scanned,
    c.active,
    c.entry,
    find_report-clean content w.store.active_id w.store.state.segments active_live,
  )

  pub open_store_lem : open_store trigger w.disk ≡ (ok reopened, w.disk)
  unfolding open_store Issue.is_empty
  open_store_lem = ground (arith, scanned, from_scan_report_lem)

  -- A disk with an issue from which a recovery without an approval leads to the store's disk.
  pub open_store-mended :
      (d : Disk) (i : FileIssue) (is : IssueReport)
      → (scan d).issues ≡ i ∷ is
      → attempt_recovery (i ∷ is) false d ≡ (ok tt, w.disk)
      → open_store trigger d ≡ (ok reopened, w.disk)
  unfolding open_store rescan Issue.is_empty
  open_store-mended d i is found mended = ground (arith, found, mended, from_scan_report_lem)

  known_ids : List SegmentId
  known_ids = map (λ e. e.id) w.store.state.segments ++ w.store.state.dead

  active_fenced : w.store.active_id < w.store.next_seg_id
  active_fenced = c.fenced w.store.active_id (ground (arith, active_live))

  largest : max_of known_ids < w.store.next_seg_id
  unfolding known_ids
  largest =
      max_of-bound known_ids w.store.next_seg_id
        (λ j k. c.fenced j (sym (contains-known w.store.state.segments w.store.state.dead j) ∙ k))
        (omega (arith, active_fenced))

  fresh_id_lem : fresh_id w.store.state ≡ max_of known_ids + 1
  unfolding fresh_id known_ids
  fresh_id_lem = omega (arith, largest, c.room)

  reopened-fenced :
      (j : SegmentId)
      → (is_live j w.store.state.segments || contains j w.store.state.dead) ≡ true
      → j < fresh_id w.store.state
  unfolding known_ids
  reopened-fenced j known = omega (
    arith,
    fresh_id_lem,
    max_of-ge known_ids j (contains-known w.store.state.segments w.store.state.dead j ∙ known),
  )

  pub reopened-Consistent : Consistent es content (record { store = reopened; disk = w.disk })
  reopened-Consistent = record {
    recorded = record {
      there = c.recorded.there;
      holds = c.recorded.holds;
      cursor = refl;
      carried = c.recorded.carried;
      replays = c.recorded.replays;
    };
    held = c.held;
    well_formed = c.well_formed;
    apart = c.apart;
    once = c.once;
    last = c.last;
    active = c.active;
    entry = c.entry;
    logs = record { file = c.logs.file; at_end = refl; empty = refl };
    fenced = reopened-fenced;
    room = omega (arith, fresh_id_lem, largest, c.room);
  }

  -- Opening the disk of a store that agrees with it succeeds and changes nothing on the disk: the
  -- store that it gives has the same state, active segment and cursors, no rollover pending, and agrees with the disk.
  pub open_store-Consistent :
      (s : Store) × (open_store trigger w.disk ≡ (ok s, w.disk))
      × Consistent es content (record { store = s; disk = w.disk })
      × (s.state ≡ w.store.state)
      × (s.active_id ≡ w.store.active_id)
      × (s.active_cursor ≡ w.store.active_cursor)
      × (s.manifest_cursor ≡ w.store.manifest_cursor)
      × (s.rollover_pending ≡ false)
  open_store-Consistent = (
    reopened,
    open_store_lem,
    reopened-Consistent,
    refl,
    refl,
    ground (arith, c.logs.at_end, c.logs.empty),
    sym c.recorded.cursor,
    refl,
  )
