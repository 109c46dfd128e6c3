-- ===== src/Tar/Block/Gnu.antt =====
-- The fields of `headerGNU` (tar/format.go).
use arkive.Tar.Block.{Field}

abbrev pub magic : Field
magic = record { offset = 257; size = 6 }

abbrev pub version : Field
version = record { offset = 263; size = 2 }

abbrev pub user_name : Field
user_name = record { offset = 265; size = 32 }

abbrev pub group_name : Field
group_name = record { offset = 297; size = 32 }

abbrev pub dev_major : Field
dev_major = record { offset = 329; size = 8 }

abbrev pub dev_minor : Field
dev_minor = record { offset = 337; size = 8 }

abbrev pub access_time : Field
access_time = record { offset = 345; size = 12 }

abbrev pub change_time : Field
change_time = record { offset = 357; size = 12 }

abbrev pub sparse : Field
sparse = record { offset = 386; size = 97 }

abbrev pub real_size : Field
real_size = record { offset = 483; size = 12 }
