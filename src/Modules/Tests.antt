-- ===== src/Modules/Tests.antt =====
-- The default modules.
use qclib.Base.{◌≡◌, refl, true}
use qclib.Table.{find, insert_new}
use qclib.Modules.{default_modules, add_module_to_default, is_registed}

chat-default : is_registed default_modules 3 ≡ true
unfolding is_registed default_modules add_module_to_default find insert_new
chat-default = refl
