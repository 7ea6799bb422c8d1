-- ===== src/Emission/Pairing.antt =====
-- What is registered when an object comes to life is removed at its end.
use hex_type.Prelude.{Option, none, some, List, [], ◌∷◌}
use hex_type.Emission.{EmitType, con_obj_add, vla_obj_add, con_obj_del, vla_obj_del, Emission}

-- The removal of what is registered.
abbrev pub undo : EmitType → EmitType
undo con_obj_add = con_obj_del
undo vla_obj_add = vla_obj_del
undo t = t

abbrev pub undo_all : List Emission → List Emission
undo_all [] = []
undo_all (e ∷ es) = record e { emit_type = undo e.emit_type } ∷ undo_all es

abbrev pub undo_run : Option (List Emission) → Option (List Emission)
undo_run none = none
undo_run (some es) = some (undo_all es)
