-- ===== src/Store/Keeps/Roll.antt =====
-- A rollover (src/store.rs), and the agreement of the store with its disk.
use woodshed.Base.{
  ◌+◌, ◌^◌, ◌<◌, ◌≡◌, refl, sym, subst, true, false, ◌||◌, List, [], ◌∷◌, ◌++◌, some, arith, ◌==◌,
  ==_refl,
}
use woodshed.Base.Dict.{lookup, insert, contains, lookup-insert}
use woodshed.Hash.{Hasher}
use woodshed.Yatlv.{Yatlv}
use woodshed.Files.{segment_magic}
use woodshed.Frame.Frames.{frames_bytes}
use woodshed.State.{SealInfo, SegmentId, EntryId, ManifestOp, is_live}
use woodshed.State.View.{is_live-append}
use woodshed.Manifest.Replay.{Carried}
use woodshed.Scan.Segments.{Content, Held}
use woodshed.Store.{World, roll_entry, enter_segment, append_entry}
use woodshed.Store.Batch.{Logs}
use woodshed.Store.Order.{Apart-append, find_segment-append, tip, tip-append}
use woodshed.Store.Rollover.{
  CanRoll, seal_info, sealed, made, rolled_world, sealed-apply, sealed-IsWellFormed,
}
use woodshed.Store.Consistent.{Recorded-same, Recorded-logged, Consistent}
use woodshed.Store.Keeps.Held.{update, update_self, All-choice}
use woodshed.Store.Keeps.Write.{active_is_live}

module _ ⦃h : Hasher⦄ ⦃y : Yatlv⦄ (es : List ManifestOp) (content : Content) (w : World)
    (c : Consistent es content w) where
  pub next_unknown :
      (is_live w.store.next_seg_id w.store.state.segments
        || contains w.store.next_seg_id w.store.state.dead)
      ≡ false
  next_unknown = ground (arith, c.fenced w.store.next_seg_id)

  -- A store that agrees with its disk can roll.
  pub Consistent-CanRoll : CanRoll w.store w.disk
  Consistent-CanRoll = record {
    there = c.recorded.there;
    free = ground (arith, next_unknown, c.held.known w.store.next_seg_id);
    not_live = ground (arith, next_unknown);
    not_dead = ground (arith, next_unknown);
    active = c.active;
  }

  pub active_below : w.store.active_id < w.store.next_seg_id
  active_below = c.fenced w.store.active_id (ground (arith, active_is_live es content w c))

  live_below : (j : SegmentId) → is_live j w.store.state.segments ≡ true → j < w.store.next_seg_id
  live_below j l = c.fenced j (ground arith)

  sealed_below :
      (j : SegmentId) (info : SealInfo)
      → lookup j w.store.state.seals ≡ some info
      → j < w.store.next_seg_id
  sealed_below j info e = ground (arith, live_below j, (c.well_formed j).seal_live)

  -- The next segment is empty.
  abbrev pub opened : Content
  opened = update content w.store.next_seg_id []

  module _ (first : EntryId) where
    sealed-Held :
        Held
          (sealed w.store first)
          (insert w.store.next_seg_id segment_magic w.disk.segments)
          opened
    unfolding frames_bytes is_live
    sealed-Held = record {
      files = λ j l. ground (
        arith,
        lookup-insert w.store.next_seg_id j segment_magic w.disk.segments,
        is_live-append j w.store.state.segments
            (record { id = w.store.next_seg_id; first_entry = first } ∷ []),
        c.held.files j,
      );
      fits = λ j l.
          All-choice (w.store.next_seg_id == j) [] (content j) (λ b. tt)
            λ b. c.held.fits j (
              ground (
                arith,
                l,
                is_live-append j w.store.state.segments
                    (record { id = w.store.next_seg_id; first_entry = first } ∷ []),
              ));
      sizes = λ j info e. ground (
        arith,
        lookup-insert w.store.active_id j (seal_info w.store) w.store.state.seals,
        c.logs.at_end,
        active_below,
        sealed_below j info,
        c.held.sizes j info,
      );
      dead_there = λ j k. ground (
        arith,
        lookup-insert w.store.next_seg_id j segment_magic w.disk.segments,
        c.held.dead_there j,
      );
      known = λ j k. ground (
        arith,
        lookup-insert w.store.next_seg_id j segment_magic w.disk.segments,
        is_live-append j w.store.state.segments
            (record { id = w.store.next_seg_id; first_entry = first } ∷ []),
        c.held.known j,
      );
    }

    pub rolled_Consistent :
        Carried (roll_entry w.store first)
        → w.store.next_seg_id + 1 < 2 ^ 32
        → Consistent
            (es ++ (roll_entry w.store first ∷ []))
            opened
            (rolled_world w.store w.disk first Consistent-CanRoll)
    unfolding enter_segment append_entry frames_bytes is_live tip
    rolled_Consistent carried room = record {
      recorded =
          (let r =
              Recorded-logged es (roll_entry w.store first) (sealed w.store first)
                (record { store = w.store; disk = made w.store w.disk first Consistent-CanRoll })
                (Recorded-same es w _ refl refl refl refl c.recorded) carried
                (sealed-apply w.store w.disk first Consistent-CanRoll) in
            record {
              there = r.there;
              holds = r.holds;
              cursor = r.cursor;
              carried = r.carried;
              replays = r.replays;
            });
      held = sealed-Held;
      well_formed = sealed-IsWellFormed w.store w.disk first Consistent-CanRoll c.well_formed;
      apart =
          Apart-append w.store.state.segments
            (record { id = w.store.next_seg_id; first_entry = first }) c.apart
            (ground (arith, next_unknown));
      once = c.once;
      last =
          tip-append w.store.state.segments []
            (record { id = w.store.next_seg_id; first_entry = first });
      active = refl;
      entry =
          find_segment-append w.store.state.segments
            (record { id = w.store.next_seg_id; first_entry = first })
            (ground (arith, next_unknown));
      logs = subst (Logs _ _) (sym (update_self content w.store.next_seg_id [])) (record {
        file = ground (
          arith,
          lookup-insert w.store.next_seg_id w.store.next_seg_id segment_magic w.disk.segments,
          ==_refl w.store.next_seg_id,
        );
        at_end = refl;
        empty = c.logs.empty;
      });
      fenced = λ j k. ground (
        arith,
        k,
        room,
        c.fenced j,
        is_live-append j w.store.state.segments
            (record { id = w.store.next_seg_id; first_entry = first } ∷ []),
      );
      room = omega arith;
    }
