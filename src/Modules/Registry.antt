-- ===== src/Modules/Registry.antt =====
-- Registration and dispatch of projects/logic_svr/logic_module_manager.cpp.
use qclib.Base.{
  ℕ, ◌≡◌, refl, ap, ◌∙◌, arith, Bool, true, false, not, ◌&&◌, Option, none, some, ◌==◌,
  if◌then◌else◌, Bool-cases, inl, inr,
}
use qclib.Table.{find, is_some, map_some, update, find-update}
use qclib.Modules.{
  LogicModule, ModuleMap, set_regist, regist_module, unregist_module, is_registed,
  dispatch_module_message,
}

regist_of : Option LogicModule → Bool
regist_of none = false
regist_of (some m) = m.is_regist

is_registed_lem : (t : ModuleMap) (k : ℕ) → is_registed t k ≡ regist_of (find k t)
unfolding is_registed regist_of
is_registed_lem t k = of (find k t)
  where
    of : (p : Option LogicModule) → (elim p [ none ↦ false | some m ↦ m.is_regist ]) ≡ regist_of p
    of none = refl
    of (some m) = refl

regist_of-set :
    (b c : Bool) (p : Option LogicModule)
    → regist_of (if c then map_some (set_regist b) p else p)
      ≡ (if c then b && is_some p else regist_of p)
unfolding regist_of
regist_of-set true true none = refl
regist_of-set false true none = refl
regist_of-set true true (some m) = refl
regist_of-set false true (some m) = refl
regist_of-set b false p = refl

dispatched : (t : ModuleMap) (k : ℕ) → is_some (dispatch_module_message t k) ≡ is_registed t k
unfolding dispatch_module_message is_registed
dispatched t k = of (find k t)
  where
    of :
        (p : Option LogicModule)
        → is_some (elim p [ none ↦ none | some m ↦ if m.is_regist then some m else none ])
          ≡ (elim p [ none ↦ false | some m ↦ m.is_regist ])
    of none = refl
    of (some m) = elim (Bool-cases m.is_regist) [ inl e ↦ rw e refl | inr e ↦ rw e refl ]

-- After `RegistModule` and after `UnregistModule`, exactly the named module, if it is there, has changed:
-- it is registered, or it is not. A message goes to a module if and only if the module of its main
-- command is registered then.
pub regist-unregist_module :
    (t : ModuleMap) (id k : ℕ)
    → (is_registed (regist_module t id) k
        ≡ (if id == k then is_some (find k t) else is_registed t k))
      × (is_registed (unregist_module t id) k ≡ not (id == k) && is_registed t k)
      × (is_some (dispatch_module_message (regist_module t id) k)
          ≡ is_registed (regist_module t id) k)
      × (is_some (dispatch_module_message (unregist_module t id) k)
          ≡ is_registed (unregist_module t id) k)
unfolding regist_module unregist_module
regist-unregist_module t id k = (
  is_registed_lem (update id (set_regist true) t) k
      ∙ ap regist_of (find-update k id (set_regist true) t)
      ∙ regist_of-set true (id == k) (find k t)
      ∙ ground (arith, is_registed_lem t k),
  is_registed_lem (update id (set_regist false) t) k
      ∙ ap regist_of (find-update k id (set_regist false) t)
      ∙ regist_of-set false (id == k) (find k t)
      ∙ ground (arith, is_registed_lem t k),
  dispatched (update id (set_regist true) t) k,
  dispatched (update id (set_regist false) t) k,
)
