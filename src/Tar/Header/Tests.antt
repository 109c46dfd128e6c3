-- ===== src/Tar/Header/Tests.antt =====
-- Headers at concrete blocks.
use arkive.Common.{◌≡◌, refl, ◌↔◌, [], ◌∷◌}
use arkive.Common.Go.{eof, unexpected_eof, err}
use arkive.Tar.Header.{read_header}
use arkive.Tar.Header.End.{IsEnd, read_header-eof_iff}

read_header-eof_iff_example : (read_header (1 ∷ 2 ∷ []) ≡ err eof) ↔ IsEnd (1 ∷ 2 ∷ [])
read_header-eof_iff_example = read_header-eof_iff (1 ∷ 2 ∷ [])

-- A stream that ends inside a block.
short_run : read_header (1 ∷ 2 ∷ []) ≡ err unexpected_eof
unfolding read_header
short_run = refl
