-- ===== src/Frame/Cursor.antt =====
-- `FrameBuffer` and `FrameCursor` of src/frame.rs: frames gathered in memory, and written to a file
-- at a tracked position.
use woodshed.Base.{ℕ, ◌+◌, List, [], ◌++◌, length}
use woodshed.Hash.{Hasher}
use woodshed.File.{write_all_at}
use woodshed.Frame.Format.{frame_bytes}

pub record FrameBuffer : Type 0 where
  pub buf : List ℕ

abbrev pub empty_buffer : FrameBuffer
empty_buffer = record { buf = [] }

-- `FrameBuffer::write`
unfoldable pub write_buffer : ⦃h : Hasher⦄ → FrameBuffer → ℕ → List ℕ → FrameBuffer
write_buffer b id payload = record b { buf = b.buf ++ frame_bytes id payload }

pub record FrameCursor : Type 0 where
  pub buf : FrameBuffer
  pub position : ℕ

abbrev pub new : ℕ → FrameCursor
new position = record { buf = empty_buffer; position = position }

abbrev pub set_position : FrameCursor → ℕ → FrameCursor
set_position c pos = record c { position = pos }

-- `FrameCursor::write`
unfoldable pub write : ⦃h : Hasher⦄ → FrameCursor → ℕ → List ℕ → FrameCursor
unfolding write_buffer
write c id payload = record c { buf = write_buffer c.buf id payload }

-- `FrameCursor::flush`, on the bytes of the file: the new bytes, and the cursor behind them.
unfoldable pub flush : FrameCursor → List ℕ → List ℕ × FrameCursor
flush c content = (
  write_all_at content c.buf.buf c.position,
  record { buf = empty_buffer; position = c.position + length c.buf.buf },
)
