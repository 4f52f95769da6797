-- ===== src/Types/Store.antt =====
-- crates/attractor-types/src/context.rs: the key-value store that the stages of a run share. Every
-- handle of a `Context` is the same store, so a run threads one value of this record; what another
-- handle writes during a call comes back in the store that the call returns.
use pascals_discrete_attract.Base.{
  Text, Map, Option, none, some, List, [], ◌∷◌, ◌++◌, ◌==◌, if◌then◌else◌, lookup, insert, extend,
}
use pascals_discrete_attract.Types.Values.{Json, as_str}

pub record Context : Type 0 where
  pub values : Map Json
  pub logs : List Text

abbrev pub new : Context
new = record { values = []; logs = [] }

unfoldable pub set : Text → Json → Context → Context
set k v c = record c { values = insert k v c.values }

unfoldable pub get : Text → Context → Option Json
get k c = lookup k c.values

without : Text → Map Json → Map Json
without k [] = []
without k ((j, v) ∷ m) = let rest = without k m in if j == k then rest else (j, v) ∷ rest

-- `Context::remove`: the store without the key, and the value that was there.
unfoldable pub remove : Text → Context → Option Json × Context
unfolding without
remove k c = (lookup k c.values, record c { values = without k c.values })

string_or : Text → Option Json → Text
string_or default none = default
string_or default (some v) = elim (as_str v) [ none ↦ default | some s ↦ s ]

-- `Context::get_string`.
unfoldable pub get_string : Text → Text → Context → Text
unfolding string_or
get_string k default c = string_or default (lookup k c.values)

unfoldable pub append_log : Text → Context → Context
append_log entry c = record c { logs = c.logs ++ entry ∷ [] }

unfoldable pub snapshot : Context → Map Json
snapshot c = c.values

-- `Context::apply_updates`.
unfoldable pub apply_updates : Map Json → Context → Context
apply_updates updates c = record c { values = extend c.values updates }
