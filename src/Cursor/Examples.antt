-- ===== src/Cursor/Examples.antt =====
-- A table with one row.
use flashloan_scanner.Base.{◌≡◌, refl, Option, some, none, ok}
use flashloan_scanner.Rows.{ScannerCursor}
use flashloan_scanner.Cursor.{CursorDb, get_cursor, save_cursor}

abbrev table : CursorDb (Option ScannerCursor)
table = record {
  get_scanner_cursor = λ _ _ _ row. ok row;
  save_scanner_cursor = λ row _. (ok tt, some row);
}

no_cursor : get_cursor table "aave" 1 "verification" none ≡ ok 0
unfolding get_cursor
no_cursor = refl

-- A number of more than 64 bits wraps around.
saved_cursor :
    get_cursor table "aave" 1 "verification"
      (save_cursor table "aave" 1 "verification" 18446744073709551623 none).1
    ≡ ok 7
unfolding get_cursor save_cursor
saved_cursor = refl
