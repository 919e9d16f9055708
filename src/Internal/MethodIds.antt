-- ===== src/Internal/MethodIds.antt =====
-- The method ids of the operations of instance.go, by which they enter the exports of the guest.
use go_python.Prelude.{ℕ}

abbrev pub mid_call : ℕ
mid_call = 1

abbrev pub mid_call_method : ℕ
mid_call_method = 2

abbrev pub mid_contains : ℕ
mid_contains = 4

abbrev pub mid_del_item : ℕ
mid_del_item = 5

abbrev pub mid_dict_get : ℕ
mid_dict_get = 6

abbrev pub mid_dict_items : ℕ
mid_dict_items = 7

abbrev pub mid_dict_keys : ℕ
mid_dict_keys = 8

abbrev pub mid_dict_values : ℕ
mid_dict_values = 9

abbrev pub mid_eval : ℕ
mid_eval = 10

abbrev pub mid_get_attr : ℕ
mid_get_attr = 12

abbrev pub mid_get_item : ℕ
mid_get_item = 13

abbrev pub mid_import : ℕ
mid_import = 14

abbrev pub mid_is_instance : ℕ
mid_is_instance = 15

abbrev pub mid_iter : ℕ
mid_iter = 16

abbrev pub mid_len : ℕ
mid_len = 18

abbrev pub mid_list_append : ℕ
mid_list_append = 19

abbrev pub mid_new_dict : ℕ
mid_new_dict = 21

abbrev pub mid_new_frozen_set : ℕ
mid_new_frozen_set = 22

abbrev pub mid_new_function : ℕ
mid_new_function = 23

abbrev pub mid_new_list : ℕ
mid_new_list = 24

abbrev pub mid_new_set : ℕ
mid_new_set = 25

abbrev pub mid_new_tuple : ℕ
mid_new_tuple = 26

abbrev pub mid_repr : ℕ
mid_repr = 28

abbrev pub mid_set_add : ℕ
mid_set_add = 29

abbrev pub mid_set_discard : ℕ
mid_set_discard = 30

abbrev pub mid_set_attr : ℕ
mid_set_attr = 32

abbrev pub mid_set_item : ℕ
mid_set_item = 33

abbrev pub mid_str : ℕ
mid_str = 34
