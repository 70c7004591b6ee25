-- ===== src/Common/ConfigMaps.antt =====
-- The config maps that controllers apply: corev1.ConfigMap, the fields that the code sets.
use cluster_authentication_o.Base.{String, List}

pub record ConfigMap : Type 0 where
  pub name : String
  pub namespace : String
  pub labels : List (String × String)
  pub entries : List (String × String)
