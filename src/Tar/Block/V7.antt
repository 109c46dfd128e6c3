-- ===== src/Tar/Block/V7.antt =====
-- The fields of `headerV7` (tar/format.go).
use arkive.Tar.Block.{Field}

abbrev pub name : Field
name = record { offset = 0; size = 100 }

abbrev pub mode : Field
mode = record { offset = 100; size = 8 }

abbrev pub uid : Field
uid = record { offset = 108; size = 8 }

abbrev pub gid : Field
gid = record { offset = 116; size = 8 }

abbrev pub size_field : Field
size_field = record { offset = 124; size = 12 }

abbrev pub mod_time : Field
mod_time = record { offset = 136; size = 12 }

abbrev pub chksum : Field
chksum = record { offset = 148; size = 8 }

abbrev pub type_flag : Field
type_flag = record { offset = 156; size = 1 }

abbrev pub link_name : Field
link_name = record { offset = 157; size = 100 }
