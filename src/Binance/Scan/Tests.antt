-- ===== src/Binance/Scan/Tests.antt =====
-- Runs of the scan.
use rstrader.Base.{◌≡◌, refl, none, some}
use rstrader.Base.Bytes.{ascii}
use rstrader.Base.Int.{pos, negsuc}
use rstrader.Binance.Scan.{
  find_after, number_at, skip_blanks, parse_i64, digits, scan_number, scan_depth_u_fields,
}

scan_runs : scan_depth_u_fields (ascii "{\"U\":5, \"u\": 7, \"pu\":4}") ≡ some (pos 5, pos 7, pos 4)
unfolding scan_depth_u_fields scan_number find_after number_at skip_blanks parse_i64 digits
scan_runs = refl

scan_negative : scan_number (ascii "u") (ascii "{\"u\":-12}") ≡ some (negsuc 11)
unfolding scan_number find_after number_at skip_blanks parse_i64 digits
scan_negative = refl

scan_missing : scan_depth_u_fields (ascii "{\"U\":5, \"u\": 7}") ≡ none
unfolding scan_depth_u_fields scan_number find_after number_at skip_blanks parse_i64 digits
scan_missing = refl

scan_out_of_range : scan_number (ascii "u") (ascii "{\"u\":9223372036854775808}") ≡ none
unfolding scan_number find_after number_at skip_blanks parse_i64 digits
scan_out_of_range = refl
