-- ===== src/Modules.antt =====
-- projects/logic_svr/logic_module_manager.cpp: the modules by their ids, and which of them gets a message.
-- What a module does with a message is not part of it.
pub mod Registry
mod Tests
use qclib.Base.{ℕ, Bool, true, false, List, [], ◌∷◌, Option, none, some, ltb, if◌then◌else◌}
use qclib.Table.{Table, find, insert_new, update}

-- `LogicModuleBase`.
pub record LogicModule : Type 0 where
  pub module_id : ℕ
  pub is_regist : Bool

abbrev pub ModuleMap : Type 0
ModuleMap = Table LogicModule

-- The constructor of `LogicModuleBase`.
abbrev pub new_module : ℕ → LogicModule
new_module id = record { module_id = id; is_regist = true }

unfoldable pub add_module_to_default : ModuleMap → LogicModule → ModuleMap
add_module_to_default t m = if ltb 0 m.module_id then insert_new m.module_id m t else t

-- The constructor of `LogicModuleManager`: the modules for login, chat and maps.
unfoldable pub default_modules : ModuleMap
default_modules =
    add_module_to_default
      (add_module_to_default (add_module_to_default [] (new_module 1)) (new_module 3))
      (new_module 2)

abbrev pub set_regist : Bool → LogicModule → LogicModule
set_regist b m = record m { is_regist = b }

unfoldable pub regist_module : ModuleMap → ℕ → ModuleMap
regist_module t id = update id (set_regist true) t

unfoldable pub unregist_module : ModuleMap → ℕ → ModuleMap
unregist_module t id = update id (set_regist false) t

unfoldable pub is_registed : ModuleMap → ℕ → Bool
is_registed t id = elim (find id t) [ none ↦ false | some m ↦ m.is_regist ]

-- `DispatchModuleMessage`: the module whose `DoModuleMessage` is called for a main command.
unfoldable pub dispatch_module_message : ModuleMap → ℕ → Option LogicModule
dispatch_module_message t cmd_type = elim (find cmd_type t) [
  | none ↦ none
  | some m ↦ if m.is_regist then some m else none
]
