-- ===== src/Cursor.antt =====
-- scanner/cursor/gorm.go: the last block that a scanner has processed. The table of cursors
-- (`dbscanner.ScannerCursorDB`) is two functions on a `World`.
mod Examples
use flashloan_scanner.Base.{ℕ, ◌%◌, ◌^◌, String, Option, none, some, Outcome, ok, err}
use flashloan_scanner.Rows.{ScannerCursor}

module _ (World : Type 0) where
  pub record CursorDb : Type 0 where
    pub get_scanner_cursor : String → ℕ → String → World → Outcome (Option ScannerCursor)
    pub save_scanner_cursor : ScannerCursor → World → Outcome (Unit {0}) × World

-- `item.BlockNumber.Uint64()`, or 0 without a row or a number.
unfoldable pub cursor_block : Option ScannerCursor → ℕ
cursor_block none = 0
cursor_block (some item) = elim item.block_number [ none ↦ 0 | some n ↦ n % 2 ^ 64 ]

module _ {World : Type 0} (db : CursorDb World) (scanner_name : String) (chain_id : ℕ)
    (cursor_type : String) where
  unfoldable pub get_cursor : World → Outcome ℕ
  unfolding cursor_block
  get_cursor w = elim (db.get_scanner_cursor scanner_name chain_id cursor_type w) [
    | err e ↦ err e
    | ok item ↦ ok (cursor_block item)
  ]

  unfoldable pub save_cursor : ℕ → World → Outcome (Unit {0}) × World
  save_cursor block_number w =
      db.save_scanner_cursor
        (record {
          scanner_name = scanner_name;
          chain_id = chain_id;
          cursor_type = cursor_type;
          block_number = some block_number;
        })
        w
