-- ===== src/Tensor.antt =====
-- The tensor layer, src/tensor/: data types, shapes and views.
pub mod Dtype
pub mod Shape
