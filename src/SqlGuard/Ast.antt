-- ===== src/SqlGuard/Ast.antt =====
-- What src/sql_guard/mod.rs reads of the syntax tree of the `sqlparser` crate. The parser and the
-- tree's traversal are not code of the repository: `SqlParser` is a parameter of the guard. The
-- constructors are the variants that the guard's matches name; `other` stands for the rest.
use pg_ask.Prelude.{Option, List, Text}

-- The parts of a dotted name, each as its `to_string()` prints it, quotes included.
abbrev pub ObjectName : Type 0
ObjectName = List Text

mutual
  pub data Query : Type 0 where
    query : With → SetExpr → Query

  -- `Option<With>`; the list is `cte_tables`.
  pub data With : Type 0 where
    no_with : With
    ctes : Ctes → With

  pub data Ctes : Type 0 where
    end : Ctes
    cte : Query → Ctes → Ctes

  pub data SetExpr : Type 0 where
    insert_body update_body delete_body other_body : SetExpr
    query_body : Query → SetExpr

-- `other` carries the statement's debug form.
pub data Statement : Type 0 where
  query_stmt : Query → Statement
  explain : Statement → Statement
  copy insert update delete : Statement
  create_table create_view create_index drop_stmt alter_table truncate : Statement
  create_schema create_sequence create_extension : Statement
  other : Text → Statement

pub data Value : Type 0 where
  single_quoted double_quoted escaped national dollar_quoted : Text → Value
  other_value : Value

pub data FunctionArgExpr : Type 0 where
  value_expr : Value → FunctionArgExpr
  other_expr : FunctionArgExpr

pub data FunctionArg : Type 0 where
  named expr_named unnamed : FunctionArgExpr → FunctionArg

pub data FunctionArguments : Type 0 where
  arg_list : List FunctionArg → FunctionArguments
  other_args : FunctionArguments

pub record Function : Type 0 where
  pub name : ObjectName
  pub args : FunctionArguments

-- What a visitor is shown: a relation, an expression that is a call, any other expression.
pub data Node : Type 0 where
  relation : ObjectName → Node
  call : Function → Node
  expr : Node

-- A parsed statement: its shape, and the nodes in the order of `Visit::visit`.
pub record Parsed : Type 0 where
  pub shape : Statement
  pub nodes : List Node

-- `Parser::parse_sql` with the PostgreSQL dialect; `none` is a parse error.
pub record SqlParser : Type 0 where
  pub parse_sql : Text → Option (List Parsed)
