-- ===== src/Oms/Tests.antt =====
-- Client order ids at concrete texts.
use rstrader.Base.{◌≡◌, some, ◌++◌, arith}
use rstrader.Base.Int.{negsuc}
use rstrader.Base.Bytes.{ascii}
use rstrader.Oms.ClOrdId.{format_xcl, parse_xcl, parse_xcl-format_xcl}

parse_xcl-format_xcl_example :
    parse_xcl (ascii " " ++ (format_xcl (negsuc 41) ++ ascii "  ")) ≡ some (negsuc 41)
parse_xcl-format_xcl_example =
    parse_xcl-format_xcl (negsuc 41) (ascii " ") (ascii "  ") (ground arith) (ground arith)
      (ground arith)
